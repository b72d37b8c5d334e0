-- ===== src/Derp/Examples.antt =====
-- The theorems on the DERP codec at stand-ins for the crates.
use vlink.Prelude.{true, false, ◌⊎◌, [], ◌∷◌, ◌++◌, none, some, ◌≡◌, refl, arith, ◌↔◌}
use vlink.Outcome.{ok, panic}
use vlink.Derp.{
  ClientInfo, ws, frame_server_key_response, server_info, frame_keep_alive_response, Crates, new,
  frame_recv_packet, cmd_type_of, decode, decode_body, decode_frame, finish, write_frame,
  frame_keep_alive,
}
use vlink.Derp.Client.{await_handshake}
use vlink.Derp.Client.Awaiting.{Responses, IsInformed, IsSilent, await_handshake-ok_iff}
use vlink.Derp.Stream.{decode-resumes}
use vlink.Derp.Frames.{codec, decode-write_frame, decode_frame-panic_iff, IsTooShort}

-- No upgrade answer, keys of any kind, and sealing that changes nothing.
abbrev stand_in : Crates
stand_in = record {
  parse_response = λ bytes. ok none;
  is_public_key = λ key. true;
  is_secret_key = λ key. true;
  box_seal = λ box nonce bytes. some bytes;
  box_open = λ box nonce bytes. some bytes;
  read_server_info = λ bytes. some 2;
  write_client_info = λ info. some [];
}

-- A header for two bytes, of which one has come.
decode-resumes_example :
    decode stand_in
      (record (new [] [] true) { header = some (record { cmd_type = frame_recv_packet; len = 2 }) })
      (7 ∷ 8 ∷ [])
    ≡ decode stand_in (new [] [] true) (5 ∷ 0 ∷ 0 ∷ 0 ∷ 2 ∷ 7 ∷ 8 ∷ [])
unfolding new decode decode_body cmd_type_of
decode-resumes_example =
    decode-resumes stand_in (new [] [] true)
      (record (new [] [] true) { header = some (record { cmd_type = frame_recv_packet; len = 2 }) })
      (5 ∷ 0 ∷ 0 ∷ 0 ∷ 2 ∷ 7 ∷ []) (7 ∷ []) (8 ∷ []) refl

decode-write_frame_example :
    decode stand_in
      (codec stand_in [] [] none)
      (write_frame [] frame_keep_alive (1 ∷ 2 ∷ []) ++ 3 ∷ [])
    ≡ finish stand_in (codec stand_in [] [] none) (3 ∷ []) (
        decode_frame stand_in
          (codec stand_in [] [] none)
          (record { cmd_type = frame_keep_alive; len = 2 })
          (1 ∷ 2 ∷ []))
decode-write_frame_example =
    decode-write_frame stand_in [] [] none frame_keep_alive (1 ∷ 2 ∷ []) (3 ∷ []) (omega arith)

decode_frame-panic_iff_example :
    (decode_frame stand_in
        (codec stand_in [] [] none)
        (record { cmd_type = frame_recv_packet; len = 1 })
        (9 ∷ [])
      ≡ panic)
    ↔ IsTooShort stand_in [] [] none frame_recv_packet (9 ∷ [])
decode_frame-panic_iff_example =
    decode_frame-panic_iff stand_in [] [] none (codec stand_in [] [] none) frame_recv_packet 1
      (9 ∷ [])

abbrev info : ClientInfo
info = record { version = 2; can_ack_pings = false }

-- A stream with the information of the server in it.
abbrev stream : Responses
stream =
    ok ws
    ∷ ok (frame_server_key_response [])
    ∷ ok (server_info 2)
    ∷ ok frame_keep_alive_response
    ∷ []

await_handshake-ok_iff_example :
    ((await_handshake info stream).1 ≡ ok (ok frame_keep_alive_response ∷ [])) ↔ (
      IsInformed stream (ok frame_keep_alive_response ∷ [])
      ⊎ IsSilent stream (ok frame_keep_alive_response ∷ []))
await_handshake-ok_iff_example =
    await_handshake-ok_iff info stream (ok frame_keep_alive_response ∷ [])
