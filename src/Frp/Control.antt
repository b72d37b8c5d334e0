-- ===== src/Frp/Control.antt =====
-- The FRP client, derp/frp-client/src/frp_control.rs and conn_control.rs, over the codec. What a stream gives is
-- a list, and what is sent is a list of requests, in order. The fields that the client reads of the JSON
-- records are parameters.
pub mod Running
mod Examples
use vlink.Prelude.{
  ℕ, ◌-◌, ◌^◌, Bool, false, List, [], ◌∷◌, ◌++◌, length, take, drop, ltb, Option, none, some,
  if◌then◌else◌,
}
use vlink.Outcome.{Outcome, ok, err, panic, ◌>>=◌}
use vlink.Bytes.{to_be_bytes}
use vlink.Frp.{
  Error, Crates, msg_header_decode, msg_header_size, type_new_work_conn, FrpRequest, login_request,
  iv_request, FrpResponse, login_resp, iv_response, type_req_work_conn_response, start_work_conn,
  test,
}

pub data ControlError : Type 0 where
  no_stream rejected no_run_id no_response cut_short bad_json : ControlError

-- A command of `ConnControl`: a stream is asked for, or the end of the connection.
pub data ControlCommand : Type 0 where
  open_stream close_connection : ControlCommand

-- What the connection says when it is polled for a stream of its own, and for one of the other end.
pub data Outbound : Type 0 where
  opened refused pending : Outbound

pub data Remote : Type 0 where
  remote_opened remote_closed remote_failed quiet : Remote

-- What `poll` does: it answers the command, or drops it; and it goes on, fails or panics.
pub data Answer : Type 0 where
  none_asked answered_stream answered_refusal dropped : Answer

-- The second half of `poll`.
unfoldable pub poll_remote : Answer → Remote → Answer × Outcome ControlError (Unit {0})
poll_remote answer remote_opened = (answer, panic)
poll_remote answer remote_closed = (answer, panic)
poll_remote answer remote_failed = (answer, err cut_short)
poll_remote answer quiet = (answer, ok tt)

-- `ConnControlFuture::poll`, with the command that the channel has, if any: a command that the connection
-- is not ready for is gone.
unfoldable pub poll :
    Option ControlCommand → Outbound → Remote → Answer × Outcome ControlError (Unit {0})
poll none out remote = poll_remote none_asked remote
poll (some open_stream) opened remote = poll_remote answered_stream remote
poll (some open_stream) refused remote = poll_remote answered_refusal remote
poll (some open_stream) pending remote = (dropped, ok tt)
poll (some close_connection) out remote = (dropped, panic)

-- `hande_work_conn` writes this for the JSON text of its record.
unfoldable pub work_conn_message : List ℕ → List ℕ
work_conn_message json = type_new_work_conn ∷ (to_be_bytes 8 (length json) ++ json)

module _ (c : Crates) where
  -- The fields that the client reads and makes.
  pub record Fields : Type 0 where
    pub error_of : c.LoginResp → Bool
    pub run_id_of : c.LoginResp → Option (List ℕ)
    pub new_login : List ℕ → List ℕ → c.LoginRequest

  -- `FrpControl`, by its token, the run that it is logged in for, and whether it still has its stream.
  pub record FrpControl : Type 0 where
    pub token : List ℕ
    pub run_id : Option (List ℕ)
    pub has_stream : Bool

  abbrev pub Responses : Type 0
  Responses = List (Outcome Error (FrpResponse c))

  -- What `login` leaves: the client, what it sent, and what the stream still holds.
  pub record LoggedIn : Type 0 where
    pub control : FrpControl
    pub sent : List (FrpRequest c)
    pub stream : Responses

  -- The exchange of keys behind a login.
  unfoldable pub exchange_iv : FrpControl → FrpRequest c → Responses → Outcome ControlError LoggedIn
  exchange_iv control login [] = ok (record { control = control; sent = login ∷ []; stream = [] })
  exchange_iv control login (panic ∷ stream) = panic
  exchange_iv control login (ok iv_response ∷ stream) =
      ok (record { control = control; sent = login ∷ iv_request ∷ []; stream = stream })
  exchange_iv control login (r ∷ stream) =
      ok (record { control = control; sent = login ∷ []; stream = stream })

  -- `login`, within its timeout.
  unfoldable pub login : Fields → FrpControl → List ℕ → Responses → Outcome ControlError LoggedIn
  login fields control user [] = if control.has_stream then err no_response else err no_stream
  login fields control user (ok (login_resp resp) ∷ stream) =
      if control.has_stream
      then (if fields.error_of resp then err rejected else elim (fields.run_id_of resp) [
        | none ↦ err no_run_id
        | some run_id ↦
            exchange_iv (record control { run_id = some run_id })
              (login_request (fields.new_login control.token user)) stream
      ])
      else err no_stream
  login fields control user (panic ∷ stream) = if control.has_stream then panic else err no_stream
  login fields control user (r ∷ stream) =
      if control.has_stream then err no_response else err no_stream

  -- `run`: the client without its stream, and the run and the token of the task.
  unfoldable pub run : FrpControl → FrpControl × Outcome ControlError (List ℕ × List ℕ)
  run control =
      let left = record control { has_stream = false } in
      if control.has_stream
      then (
        left,
        elim control.run_id [ none ↦ err no_run_id | some run_id ↦ ok (run_id, control.token) ],
      )
      else (left, err no_stream)

  -- `handle_stream`: a work connection for each request, until the stream fails or ends; a connection that
  -- cannot be opened panics.
  unfoldable pub handle_stream :
      Bool → List ℕ × List ℕ → Responses → Outcome ControlError (List (List ℕ × List ℕ))
  handle_stream opens ctx [] = ok []
  handle_stream opens ctx (ok type_req_work_conn_response ∷ stream) =
      if opens then (handle_stream opens ctx stream >>= λ rest. ok (ctx ∷ rest)) else panic
  handle_stream opens ctx (ok (login_resp resp) ∷ stream) = handle_stream opens ctx stream
  handle_stream opens ctx (ok iv_response ∷ stream) = handle_stream opens ctx stream
  handle_stream opens ctx (ok (start_work_conn resp) ∷ stream) = handle_stream opens ctx stream
  handle_stream opens ctx (ok test ∷ stream) = handle_stream opens ctx stream
  handle_stream opens ctx (err e ∷ stream) = ok []
  handle_stream opens ctx (panic ∷ stream) = panic

  -- What `hande_work_conn` reads of the answer to its message: a header, and a body of the length that the
  -- header says, for which it reserves the room first.
  unfoldable pub read_work_conn : List ℕ → Outcome ControlError (c.StartWorkConnResp × List ℕ)
  read_work_conn bytes =
      let len = (msg_header_decode (take msg_header_size bytes)).len in
      let body = drop msg_header_size bytes in
      if ltb (length bytes) msg_header_size
      then err cut_short
      else if ltb (2 ^ 63 - 1) len
      then panic
      else if ltb (length body) len
      then err cut_short
      else elim (c.read_start_work_conn (take len body)) [
        | none ↦ err bad_json
        | some resp ↦ ok (resp, drop len body)
      ]
