-- ===== src/Frp.antt =====
-- The FRP codec, derp/frp-client/src/frp_codec.rs and the message header of msg.rs, over the crates that
-- they call. A buffer is the list of its bytes; `split_to` takes them off its front.
pub mod Header
pub mod Decoding
pub mod Panics
pub mod Control
pub mod Examples
use vlink.Prelude.{
  ℕ, ◌+◌, ◌*◌, ◌^◌, Bool, true, false, List, [], ◌∷◌, ◌++◌, length, take, drop, get_or, Option,
  none, some, ltb, ◌==◌, if◌then◌else◌,
}
use vlink.Outcome.{Outcome, ok, err, panic, ◌>>=◌}
use vlink.Bytes.{to_be_bytes, from_be_bytes}

abbrev pub type_login : ℕ
type_login = 111

abbrev pub type_login_resp : ℕ
type_login_resp = 49

abbrev pub type_req_work_conn : ℕ
type_req_work_conn = 114

abbrev pub type_ping : ℕ
type_ping = 104

abbrev pub type_new_work_conn : ℕ
type_new_work_conn = 119

abbrev pub type_new_proxy : ℕ
type_new_proxy = 112

abbrev pub type_new_proxy_resp : ℕ
type_new_proxy_resp = 50

abbrev pub type_start_work_conn : ℕ
type_start_work_conn = 115

abbrev pub max_msg_len : ℕ
max_msg_len = 2 * 2 ^ 10

abbrev pub msg_header_size : ℕ
msg_header_size = 9

-- The errors that the codec returns: its own, and those of the crates.
pub data Error : Type 0 where
  msg_len_too_long frp_coder_is_none json_error crypto_error : Error

pub record MsgHeader : Type 0 where
  pub msg_type : ℕ
  pub len : ℕ

unfoldable pub msg_header_encode : MsgHeader → List ℕ
msg_header_encode hdr = hdr.msg_type ∷ to_be_bytes 8 hdr.len

unfoldable pub msg_header_decode : List ℕ → MsgHeader
msg_header_decode buf = record {
  msg_type = get_or buf 0 0;
  len = from_be_bytes (take 8 (drop 1 buf));
}

pub data Stage : Type 0 where
  login wait_iv work : Stage

-- What serde_json and the cipher provide: the message types are its own, and a coder is a state that
-- each call moves on.
pub record Crates : Type 1 where
  pub LoginResp : Type 0
  pub StartWorkConnResp : Type 0
  pub LoginRequest : Type 0
  pub NewWorkConn : Type 0
  pub PingRequest : Type 0
  pub NewProxyRequest : Type 0
  pub Coder : Type 0
  pub new_coder : List ℕ → List ℕ → Option Coder
  pub iv : Coder → List ℕ
  pub decrypt_buf : Coder → List ℕ → Coder × List ℕ
  pub encrypt_buf : Coder → List ℕ → Coder × List ℕ
  pub read_login_resp : List ℕ → Option LoginResp
  pub read_start_work_conn : List ℕ → Option StartWorkConnResp
  pub write_login : LoginRequest → Option (List ℕ)
  pub write_new_work_conn : NewWorkConn → Option (List ℕ)
  pub write_ping : PingRequest → Option (List ℕ)
  pub write_new_proxy : NewProxyRequest → Option (List ℕ)

module _ (c : Crates) where
  pub data FrpRequest : Type 0 where
    login_request : c.LoginRequest → FrpRequest
    req_work_conn : c.NewWorkConn → FrpRequest
    ping : c.PingRequest → FrpRequest
    new_proxy : c.NewProxyRequest → FrpRequest
    iv_request : FrpRequest

  pub data FrpResponse : Type 0 where
    login_resp : c.LoginResp → FrpResponse
    iv_response : FrpResponse
    type_req_work_conn_response : FrpResponse
    start_work_conn : c.StartWorkConnResp → FrpResponse
    test : FrpResponse

  pub record FrpCodec : Type 0 where
    pub token : List ℕ
    pub header : Option MsgHeader
    pub frp_coder : Option c.Coder
    pub stage : Stage

  unfoldable pub new : List ℕ → FrpCodec
  new token = record { token = token; header = none; frp_coder = none; stage = login }

  abbrev pub present {ℓ} : {A : Type ℓ} → Option A → Error → Outcome Error A
  present none e = err e
  present (some a) e = ok a

  -- What a call of `decode` leaves: the codec, the buffer and the result.
  abbrev pub Decoded : Type 0
  Decoded = FrpCodec × List ℕ × Outcome Error (Option FrpResponse)

  -- `if let Some(coder) = self.frp_coder.as_mut() { coder.decrypt_buf(..) }`
  unfoldable pub decrypted : FrpCodec → List ℕ → FrpCodec × List ℕ
  decrypted codec bytes = elim codec.frp_coder [
    | none ↦ (codec, bytes)
    | some coder ↦
        let (coder', plain) = c.decrypt_buf coder bytes in
        (record codec { frp_coder = some coder' }, plain)
  ]

  -- The message of a whole frame. Its stage changes only where the response is read.
  unfoldable pub decode_message :
      FrpCodec → ℕ → List ℕ → FrpCodec × Outcome Error (Option FrpResponse)
  decode_message codec msg_type plain =
      if msg_type == type_login_resp
      then elim (c.read_login_resp plain) [
        | some resp ↦ (record codec { stage = wait_iv }, ok (some (login_resp resp)))
        | none ↦ (codec, err json_error)
      ]
      else if msg_type == type_req_work_conn
      then (codec, ok (some type_req_work_conn_response))
      else if msg_type == type_new_proxy_resp
      then (codec, ok (some test))
      else if msg_type == type_start_work_conn
      then elim (c.read_start_work_conn plain) [
        | some resp ↦ (codec, ok (some (start_work_conn resp)))
        | none ↦ (codec, err json_error)
      ]
      else (codec, panic)

  -- `decode` in the stage that waits for the 16 bytes of the server's vector.
  unfoldable pub decode_iv : FrpCodec → List ℕ → Decoded
  decode_iv codec src =
      if ltb (length src) 16
      then (codec, src, ok none)
      else elim (c.new_coder codec.token (take 16 src)) [
        | none ↦ (codec, drop 16 src, err crypto_error)
        | some coder ↦ (
          record codec { frp_coder = some coder; stage = work },
          drop 16 src,
          ok (some iv_response),
        )
      ]

  -- `decode` behind the header.
  unfoldable pub decode_body : FrpCodec → List ℕ → MsgHeader → Decoded
  decode_body codec src header =
      if ltb max_msg_len header.len
      then (record codec { header = none }, src, err msg_len_too_long)
      else if ltb (length src) header.len
      then (record codec { header = some header }, src, ok none)
      else let (opened, plain) = decrypted (record codec { header = none }) (take header.len src) in
        let (codec', response) = decode_message opened header.msg_type plain in
        (codec', drop header.len src, response)

  unfoldable pub decode_header : FrpCodec → List ℕ → Decoded
  decode_header codec src = elim codec.header [
    | some header ↦ decode_body codec src header
    | none ↦
        if ltb (length src) msg_header_size
        then (codec, src, ok none)
        else let (opened, plain) = decrypted codec (take msg_header_size src) in
          decode_body opened (drop msg_header_size src) (msg_header_decode plain)
  ]

  unfoldable pub decode : FrpCodec → List ℕ → Decoded
  decode codec src = elim codec.stage [
    | wait_iv ↦ decode_iv codec src
    | _ ↦ decode_header codec src
  ]

  -- A message in the clear: its type, its length and its text.
  unfoldable pub frame : ℕ → List ℕ → List ℕ
  frame msg_type text = msg_type ∷ to_be_bytes 8 (length text) ++ text

  -- `encode` appends to `dst`. Only a new proxy's message is encrypted.
  unfoldable pub encode : FrpCodec → FrpRequest → List ℕ → Outcome Error (FrpCodec × List ℕ)
  encode codec (login_request r) dst =
      present (c.write_login r) json_error >>= λ text. ok (codec, dst ++ frame type_login text)
  encode codec (req_work_conn r) dst = present (c.write_new_work_conn r) json_error >>= λ text.
      ok (codec, dst ++ frame type_new_work_conn text)
  encode codec (ping r) dst =
      present (c.write_ping r) json_error >>= λ text. ok (codec, dst ++ frame type_ping text)
  encode codec (new_proxy r) dst = present (c.write_new_proxy r) json_error >>= λ text.
      present codec.frp_coder frp_coder_is_none >>= λ coder.
      let (coder', sealed) = c.encrypt_buf coder (frame type_new_proxy text) in
      ok (record codec { frp_coder = some coder' }, dst ++ sealed)
  encode codec iv_request dst =
      present codec.frp_coder frp_coder_is_none >>= λ coder. ok (codec, dst ++ c.iv coder)
