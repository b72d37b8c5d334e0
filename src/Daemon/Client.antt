-- ===== src/Daemon/Client.antt =====
-- The client of the head server, vlinkd/src/client.rs: the loop that connects again and again, and what it
-- tells the network manager.
use vlink.Prelude.{
  ℕ, zero, suc, ltb, Bool, true, false, List, [], ◌∷◌, ◌++◌, if◌then◌else◌, ◌≡◌, refl, ap, ◌∙◌, inl,
  inr, Bool-cases,
}
use vlink.Outcome.{Outcome, ok, err}
use vlink.Head.{
  ToClientData, peer_enter, peer_leave, update_extra_endpoint, require_reply, resp_config,
  resp_handshake, client_error,
}
use vlink.Daemon.{DaemonError, refused, NetworkCtrlCmd, first_connected, connected}

-- How an attempt to connect ends: the server is not reached, its information does not come or is not
-- usable, the handshake is not answered by a success, or it is.
pub data Attempt : Type 0 where
  unreachable uninformed rejected accepted : Attempt

-- What the loop does: it waits three seconds, keeps the new connection, or sends a command.
pub data Deed : Type 0 where
  waits keeps_connection : Deed
  sends : NetworkCtrlCmd → Deed

-- `handshake`, with the answer of the server.
unfoldable pub handshake : ToClientData → Outcome DaemonError (Unit {0})
handshake (resp_handshake success) = if success then ok tt else err refused
handshake (peer_enter e) = err refused
handshake (peer_leave k) = err refused
handshake (update_extra_endpoint k proto endpoint) = err refused
handshake (require_reply r) = err refused
handshake (resp_config c) = err refused
handshake client_error = err refused

-- `VlinkClient::request`, with the answer of the server.
unfoldable pub request_result : ToClientData → Outcome DaemonError ToClientData
request_result client_error = err refused
request_result (resp_handshake success) = ok (resp_handshake success)
request_result (peer_enter e) = ok (peer_enter e)
request_result (peer_leave k) = ok (peer_leave k)
request_result (update_extra_endpoint k proto endpoint) =
    ok (update_extra_endpoint k proto endpoint)
request_result (require_reply r) = ok (require_reply r)
request_result (resp_config c) = ok (resp_config c)

abbrev pub wait_if : ℕ → List Deed
wait_if count = if ltb 0 count then waits ∷ [] else []

-- A round of `reconnect` behind its wait: the flag after it, what it does, and whether the loop goes on.
unfoldable pub round : Bool → Attempt → Bool × List Deed × Bool
round if_first unreachable = (if_first, [], true)
round if_first uninformed = (if_first, [], false)
round if_first rejected = (if_first, [], false)
round if_first accepted = (
  false,
  if if_first
      then keeps_connection ∷ sends first_connected ∷ sends connected ∷ []
      else keeps_connection ∷ sends connected ∷ [],
  true,
)

-- The counter of the attempts, which a connection puts back to one.
abbrev pub count_after : ℕ → Attempt → ℕ
count_after count unreachable = suc count
count_after count uninformed = 1
count_after count rejected = 1
count_after count accepted = 1

-- `reconnect`, over the attempts in their order.
unfoldable pub reconnect : ℕ → Bool → List Attempt → List Deed
reconnect count if_first [] = []
reconnect count if_first (attempt ∷ attempts) =
    let done = round if_first attempt in
    let rest = reconnect (count_after count attempt) done.0 attempts in
    wait_if count ++ (done.1 ++ (if done.2 then rest else []))

-- The commands among what the loop does.
abbrev pub commands : List Deed → List NetworkCtrlCmd
commands [] = []
commands (waits ∷ deeds) = commands deeds
commands (keeps_connection ∷ deeds) = commands deeds
commands (sends cmd ∷ deeds) = cmd ∷ commands deeds

-- The attempts that succeed before one fails behind its connection.
abbrev pub successes : List Attempt → ℕ
successes [] = 0
successes (unreachable ∷ attempts) = successes attempts
successes (uninformed ∷ attempts) = 0
successes (rejected ∷ attempts) = 0
successes (accepted ∷ attempts) = suc (successes attempts)

abbrev pub reconnections : ℕ → List NetworkCtrlCmd
reconnections zero = []
reconnections (suc k) = connected ∷ reconnections k

abbrev pub announced : ℕ → List NetworkCtrlCmd
announced zero = []
announced (suc k) = first_connected ∷ connected ∷ reconnections k

commands-wait_if :
    (count : ℕ) (deeds : List Deed) → commands (wait_if count ++ deeds) ≡ commands deeds
commands-wait_if count deeds = elim (Bool-cases (ltb 0 count)) [
  | inl e ↦ rw (e) refl
  | inr e ↦ rw (e) refl
]

commands-later :
    (count : ℕ) (attempts : List Attempt)
    → commands (reconnect count false attempts) ≡ reconnections (successes attempts)
unfolding reconnect round
commands-later count [] = refl
commands-later count (unreachable ∷ attempts) =
    commands-wait_if count _ ∙ commands-later (suc count) attempts
commands-later count (uninformed ∷ attempts) = commands-wait_if count []
commands-later count (rejected ∷ attempts) = commands-wait_if count []
commands-later count (accepted ∷ attempts) =
    commands-wait_if count _ ∙ ap (◌∷◌ connected) (commands-later 1 attempts)

commands-first :
    (count : ℕ) (attempts : List Attempt)
    → commands (reconnect count true attempts) ≡ announced (successes attempts)
unfolding reconnect round
commands-first count [] = refl
commands-first count (unreachable ∷ attempts) =
    commands-wait_if count _ ∙ commands-first (suc count) attempts
commands-first count (uninformed ∷ attempts) = commands-wait_if count []
commands-first count (rejected ∷ attempts) = commands-wait_if count []
commands-first count (accepted ∷ attempts) =
    commands-wait_if count _ ∙ ap (λ c. first_connected ∷ connected ∷ c) (commands-later 1 attempts)

-- Whatever the attempts are: the manager is told `FirstConnected` and `Connected` at the first
-- attempt that succeeds, `Connected` at each later one, and nothing from the first attempt on that
-- connects but fails behind its connection, which ends the loop.
pub commands-reconnect :
    (attempts : List Attempt)
    → commands (reconnect 0 true attempts) ≡ announced (successes attempts)
commands-reconnect attempts = commands-first 0 attempts
