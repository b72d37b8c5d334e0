-- ===== src/Derp.antt =====
-- The DERP codec, derp/tailscale-derp/src/derp_codec.rs, over the crates that it calls. A buffer is the
-- list of its bytes; `split_to` and `advance` take them off its front.
pub mod Stream
pub mod Frames
pub mod Client
mod Examples
use vlink.Prelude.{
  ℕ, ◌+◌, ◌*◌, ◌^◌, Bool, true, false, not, List, [], ◌∷◌, ◌++◌, length, take, drop, get_or, Option,
  none, some, ltb, leb, ◌==◌, if◌then◌else◌,
}
use vlink.Outcome.{Outcome, ok, err, panic, ◌>>=◌, ◌>>◌, require, in_range}
use vlink.Bytes.{to_be_bytes, from_be_bytes}

abbrev pub magic_len : ℕ
magic_len = 8

abbrev pub key_len : ℕ
key_len = 32

abbrev pub max_frame_len : ℕ
max_frame_len = 2 ^ 20

-- The errors that the codec returns.
pub data Error : Type 0 where
  http_error error_msg invalid_server_key invalid_key encode_error no_server_key encrypt_error
        decrypt_error :
      Error
  max_frame_length : ℕ → Error

pub data CmdType : Type 0 where
  frame_server_key frame_client_info frame_server_info frame_send_packet frame_recv_packet : CmdType
  frame_keep_alive frame_peer_gone frame_forward_packet frame_ping unknown : CmdType

-- `CmdType::from(u8)`
unfoldable pub cmd_type_of : ℕ → CmdType
cmd_type_of b =
    if b == 0x01
    then frame_server_key
    else if b == 0x02
    then frame_client_info
    else if b == 0x03
    then frame_server_info
    else if b == 0x04
    then frame_send_packet
    else if b == 0x05
    then frame_recv_packet
    else if b == 0x06
    then frame_keep_alive
    else if b == 0x08
    then frame_peer_gone
    else if b == 0x0a
    then frame_forward_packet
    else if b == 0x12
    then frame_ping
    else unknown

-- `u8::from(CmdType)`; the discriminant of `Unknown` follows that of `FramePing`.
abbrev pub cmd_byte : CmdType → ℕ
cmd_byte frame_server_key = 0x01
cmd_byte frame_client_info = 0x02
cmd_byte frame_server_info = 0x03
cmd_byte frame_send_packet = 0x04
cmd_byte frame_recv_packet = 0x05
cmd_byte frame_keep_alive = 0x06
cmd_byte frame_peer_gone = 0x08
cmd_byte frame_forward_packet = 0x0a
cmd_byte frame_ping = 0x12
cmd_byte unknown = 0x13

pub record Header : Type 0 where
  pub cmd_type : CmdType
  pub len : ℕ

pub data DerpResponse : Type 0 where
  ws frame_keep_alive_response test : DerpResponse
  frame_server_key_response : List ℕ → DerpResponse
  frame_recv_packet_response : List ℕ → List ℕ → DerpResponse
  frame_peer_gone_packet : List ℕ → ℕ → DerpResponse
  server_info : ℕ → DerpResponse

-- The two fields of `ClientInfo` that serde writes.
pub record ClientInfo : Type 0 where
  pub version : ℕ
  pub can_ack_pings : Bool

pub data DerpRequest : Type 0 where
  client_info : ClientInfo → DerpRequest
  send_packet : List ℕ → List ℕ → DerpRequest
  test_request : DerpRequest

-- `salsa_box` is the server's key and the client's private key.
pub record DerpCodec : Type 0 where
  pub to_ws_response : Bool
  pub private_key : List ℕ
  pub public_key : List ℕ
  pub salsa_box : Option (List ℕ × List ℕ)
  pub header : Option Header

unfoldable pub new : List ℕ → List ℕ → Bool → DerpCodec
new public_key private_key fast_connect = record {
  to_ws_response = not fast_connect;
  private_key = private_key;
  public_key = public_key;
  salsa_box = none;
  header = none;
}

-- What httparse, crypto_box and serde_json provide. `parse_response` gives the length and the code of
-- a complete response.
pub record Crates : Type 0 where
  pub parse_response : List ℕ → Outcome Error (Option (ℕ × ℕ))
  pub is_public_key : List ℕ → Bool
  pub is_secret_key : List ℕ → Bool
  pub box_seal : List ℕ × List ℕ → List ℕ → List ℕ → Option (List ℕ)
  pub box_open : List ℕ × List ℕ → List ℕ → List ℕ → Option (List ℕ)
  pub read_server_info : List ℕ → Option ℕ
  pub write_client_info : ClientInfo → Option (List ℕ)

abbrev pub present {ℓ} : {A : Type ℓ} → Option A → Error → Outcome Error A
present none e = err e
present (some a) e = ok a

-- `write_frame`
unfoldable pub write_frame : List ℕ → CmdType → List ℕ → List ℕ
write_frame dst cmd_type bytes = dst ++ cmd_byte cmd_type ∷ to_be_bytes 4 (length bytes) ++ bytes

module _ (c : Crates) where
  unfoldable pub validate_server_response : List ℕ → Outcome Error (Option ℕ)
  validate_server_response bytes = c.parse_response bytes >>= λ status. elim status [
    | none ↦ ok none
    | some (len, code) ↦ if code == 101 then ok (some len) else err error_msg
  ]

  unfoldable pub decrypt_data : DerpCodec → List ℕ → Outcome Error (List ℕ)
  decrypt_data codec bytes =
      in_range (leb 24 (length bytes)) >> present codec.salsa_box no_server_key >>= λ box.
      present (c.box_open box (take 24 bytes) (drop 24 bytes)) decrypt_error

  -- `encrypt_data`, with the random nonce.
  unfoldable pub encrypt_data : DerpCodec → List ℕ → List ℕ → Outcome Error (List ℕ × List ℕ)
  encrypt_data codec nonce bytes = present codec.salsa_box no_server_key >>= λ box.
      present (c.box_seal box nonce bytes) encrypt_error >>= λ sealed. ok (nonce, sealed)

  -- `decode_frame`, which keeps the server's key for the box.
  unfoldable pub server_key_frame : DerpCodec → List ℕ → Outcome Error (DerpCodec × DerpResponse)
  server_key_frame codec bytes = do
    in_range (length bytes == magic_len + key_len)
    let key = drop magic_len bytes
    require (c.is_public_key key) invalid_server_key
    require (c.is_secret_key codec.private_key) invalid_key
    ok (record codec { salsa_box = some (key, codec.private_key) }, frame_server_key_response key)

  unfoldable pub server_info_frame : DerpCodec → List ℕ → Outcome Error (DerpCodec × DerpResponse)
  server_info_frame codec bytes = do
    plain ← decrypt_data codec bytes
    version ← present (c.read_server_info plain) error_msg
    ok (codec, server_info version)

  unfoldable pub decode_frame :
      DerpCodec → Header → List ℕ → Outcome Error (DerpCodec × DerpResponse)
  decode_frame codec header bytes = elim header.cmd_type [
    | frame_server_key ↦ server_key_frame codec bytes
    | frame_server_info ↦ server_info_frame codec bytes
    | frame_keep_alive ↦ ok (codec, frame_keep_alive_response)
    | frame_recv_packet ↦
        in_range (leb key_len (length bytes))
        >> ok (codec, frame_recv_packet_response (take key_len bytes) (drop key_len bytes))
    | frame_peer_gone ↦
        in_range (leb (key_len + 1) (length bytes))
        >> ok (codec, frame_peer_gone_packet (take key_len bytes) (get_or bytes key_len 0))
    | _ ↦ ok (codec, test)
  ]

  -- What a call of `decode` leaves: the codec, the buffer and the result.
  abbrev pub Decoded : Type 0
  Decoded = DerpCodec × List ℕ × Outcome Error (Option DerpResponse)

  -- A codec that a frame changes is kept only where the frame decodes.
  abbrev pub finish : DerpCodec → List ℕ → Outcome Error (DerpCodec × DerpResponse) → Decoded
  finish codec rest (ok (codec', response)) = (codec', rest, ok (some response))
  finish codec rest (err e) = (codec, rest, err e)
  finish codec rest panic = (codec, rest, panic)

  -- The part of `decode` behind the header.
  unfoldable pub decode_body : DerpCodec → List ℕ → Header → Decoded
  decode_body codec src header =
      if ltb (length src) header.len
      then (record codec { header = some header }, src, ok none)
      else finish (record codec { header = none }) (drop header.len src)
          (decode_frame (record codec { header = none }) header (take header.len src))

  -- The part of `decode` that waits for the answer to the HTTP upgrade.
  unfoldable pub decode_ws : DerpCodec → List ℕ → Decoded
  decode_ws codec src = elim (validate_server_response src) [
    | ok (some len) ↦ (record codec { to_ws_response = false }, drop len src, ok (some ws))
    | ok none ↦ (codec, src, ok none)
    | err e ↦ (codec, src, err e)
    | panic ↦ (codec, src, panic)
  ]

  unfoldable pub decode : DerpCodec → List ℕ → Decoded
  decode codec src = if codec.to_ws_response then decode_ws codec src else elim codec.header [
    | some header ↦ decode_body codec src header
    | none ↦
        if ltb (length src) 5
        then (codec, src, ok none)
        else let len = from_be_bytes (take 4 (drop 1 src)) in
          if ltb max_frame_len len
          then (codec, drop 5 src, err (max_frame_length len))
          else decode_body codec (drop 5 src)
              (record { cmd_type = cmd_type_of (get_or src 0 0); len = len })
  ]

  unfoldable pub encode : DerpCodec → List ℕ → DerpRequest → List ℕ → Outcome Error (List ℕ)
  encode codec nonce (client_info info) dst =
      present (c.write_client_info info) encode_error >>= λ json.
      encrypt_data codec nonce json >>= λ sealed.
      ok (write_frame dst frame_client_info (codec.public_key ++ (sealed.0 ++ sealed.1)))
  encode codec nonce (send_packet dst_key bytes) dst =
      ok (write_frame dst frame_send_packet (dst_key ++ bytes))
  encode codec nonce test_request dst = ok dst
