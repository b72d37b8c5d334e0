-- ===== src/Derp/Client.antt =====
-- The DERP client, derp/tailscale-derp/src/derp_client.rs, and the request of derp_utils.rs. What the stream
-- gives is the list of what the codec decodes; what is sent is a list of requests, in order.
pub mod Awaiting
use vlink.Prelude.{
  ℕ, ◌*◌, Bool, List, [], ◌∷◌, ◌++◌, length, ltb, Option, none, some, if◌then◌else◌, ◌≡◌, refl,
}
use vlink.Prelude.Text.{codes}
use vlink.Outcome.{Outcome, ok, err, panic}
use vlink.Derp.{
  Error, DerpResponse, ws, frame_keep_alive_response, test, frame_server_key_response,
  frame_recv_packet_response, frame_peer_gone_packet, server_info, DerpRequest, ClientInfo,
  client_info, send_packet,
}

-- The errors of the client: a packet that is too large, a handshake that failed, and a channel that is closed.
pub data ClientError : Type 0 where
  max_packet handshake_error closed : ClientError

abbrev pub max_packet_size : ℕ
max_packet_size = 64 * 1024

-- `send_to`, with whether the channel of requests is open.
unfoldable pub send_to : Bool → List ℕ → List ℕ → Outcome ClientError DerpRequest
send_to is_open dst bytes =
    if ltb max_packet_size (length bytes)
    then err max_packet
    else if is_open
    then ok (send_packet dst bytes)
    else err closed

-- `await_handshake`, with the information that the client gives of itself: what it sends, and what the
-- stream still holds.
unfoldable pub await_handshake :
    ClientInfo
    → List (Outcome Error DerpResponse)
    → List DerpRequest × Outcome ClientError (List (Outcome Error DerpResponse))
await_handshake info [] = ([], ok [])
await_handshake info (ok ws ∷ stream) = await_handshake info stream
await_handshake info (ok (frame_server_key_response key) ∷ stream) =
    let rest = await_handshake info stream in (client_info info ∷ rest.0, rest.1)
await_handshake info (ok (server_info v) ∷ stream) = ([], ok stream)
await_handshake info (ok frame_keep_alive_response ∷ stream) = await_handshake info stream
await_handshake info (ok test ∷ stream) = await_handshake info stream
await_handshake info (ok (frame_recv_packet_response src bytes) ∷ stream) =
    await_handshake info stream
await_handshake info (ok (frame_peer_gone_packet src reason) ∷ stream) = await_handshake info stream
await_handshake info (err e ∷ stream) = ([], err handshake_error)
await_handshake info (panic ∷ stream) = ([], panic)

-- What the crate `url` gives of a URL.
pub record Url : Type 0 where
  pub path : List ℕ
  pub query : Option (List ℕ)
  pub host : Option (List ℕ)
  pub port_or_known_default : Option (List ℕ)

abbrev pub crlf : List ℕ
crlf = 13 ∷ 10 ∷ []

unfoldable pub header_lines : List (List ℕ × List ℕ) → List ℕ
header_lines [] = []
header_lines ((name, value) ∷ headers) = name ++ codes ": " ++ value ++ crlf ++ header_lines headers

abbrev pub host_line : Url → List ℕ
host_line url = elim url.host [
  | none ↦ []
  | some host ↦
      codes "Host: "
      ++ host
      ++ elim url.port_or_known_default [ none ↦ [] | some port ↦ codes ":" ++ port ]
      ++ crlf
]

-- `build_request`
unfoldable pub build_request : Url → List (List ℕ × List ℕ) → List ℕ
build_request url headers =
    codes "GET "
    ++ url.path
    ++ elim url.query [ none ↦ [] | some query ↦ codes "?" ++ query ]
    ++ codes " HTTP/1.1"
    ++ crlf
    ++ host_line url
    ++ codes "Upgrade: websocket"
    ++ crlf
    ++ codes "Connection: Upgrade"
    ++ crlf
    ++ codes "Sec-WebSocket-Version: 13"
    ++ crlf
    ++ header_lines headers
    ++ crlf

-- `resolve`: the first address, if there is one.
unfoldable pub resolve {ℓ} : {A : Type ℓ} → List A → Option A
resolve [] = none
resolve (addr ∷ addrs) = some addr
