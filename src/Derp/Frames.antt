-- ===== src/Derp/Frames.antt =====
-- What `write_frame` writes, `decode` reads; and the frames on which `decode_frame` panics.
use vlink.Prelude.{
  ℕ, ◌+◌, ◌≤◌, ◌<◌, List, [], ◌++◌, length, Option, none, some, ltb, if◌then◌else◌, ◌≡◌, refl, ap₂,
  ◌∙◌, ◌↔◌, ◌≢◌, arith, le→ltb, le→leb, length-append, take-append_len, drop-append_len,
}
use vlink.Outcome.{ok, err, panic}
use vlink.Bytes.{from-to_be_bytes}
use vlink.Derp.{
  CmdType, frame_server_key, frame_client_info, frame_server_info, frame_send_packet,
  frame_recv_packet, frame_keep_alive, frame_peer_gone, frame_forward_packet, frame_ping, unknown,
  frame_recv_packet_response, DerpCodec, Crates, cmd_type_of, cmd_byte, max_frame_len,
  max_frame_length, decode_frame, decrypt_data, server_key_frame, server_info_frame, Decoded,
  finish, decode_body, decode, write_frame,
}
use vlink.Derp.Stream.{body-full, if_false, raw, header_read}

-- Every frame type is read back from its byte.
cmd_type_of-cmd_byte : (k : CmdType) → cmd_type_of (cmd_byte k) ≡ k
unfolding cmd_type_of
cmd_type_of-cmd_byte frame_server_key = refl
cmd_type_of-cmd_byte frame_client_info = refl
cmd_type_of-cmd_byte frame_server_info = refl
cmd_type_of-cmd_byte frame_send_packet = refl
cmd_type_of-cmd_byte frame_recv_packet = refl
cmd_type_of-cmd_byte frame_keep_alive = refl
cmd_type_of-cmd_byte frame_peer_gone = refl
cmd_type_of-cmd_byte frame_forward_packet = refl
cmd_type_of-cmd_byte frame_ping = refl
cmd_type_of-cmd_byte unknown = refl

module _ (c : Crates) (private_key public_key : List ℕ) (box : Option (List ℕ × List ℕ)) where
  abbrev pub codec : DerpCodec
  codec = raw c private_key public_key box none

  body-frame :
      (kind : CmdType) (bytes rest : List ℕ)
      → decode_body c codec (bytes ++ rest) (record { cmd_type = kind; len = length bytes })
        ≡ finish c codec rest
            (decode_frame c codec (record { cmd_type = kind; len = length bytes }) bytes)
  body-frame kind bytes rest =
      let len = length bytes in
      body-full c codec (bytes ++ rest) (record { cmd_type = kind; len = len })
        (le→ltb _ _ (omega (arith, length-append bytes rest)))
      ∙ ap₂
          (λ d t. finish c codec d (decode_frame c codec (record { cmd_type = kind; len = len }) t))
          (drop-append_len len bytes rest refl) (take-append_len len bytes rest refl)

  -- With no upgrade to wait for and no header held, `decode` takes exactly a frame that
  -- `write_frame` wrote, of at most 2 ^ 20 bytes, off the front of the buffer, and its result is
  -- that of `decode_frame` on the frame's type and content.
  pub decode-write_frame :
      (kind : CmdType) (bytes rest : List ℕ)
      → length bytes ≤ max_frame_len
      → decode c codec (write_frame [] kind bytes ++ rest)
        ≡ finish c codec rest
            (decode_frame c codec (record { cmd_type = kind; len = length bytes }) bytes)
  unfolding write_frame
  decode-write_frame kind bytes rest small =
      let len = length bytes in
      let same = from-to_be_bytes 4 len (omega (arith, small)) in
      let read : ℕ → CmdType → Decoded c = λ n k.
        if ltb max_frame_len n
        then (codec, bytes ++ rest, err (max_frame_length n))
        else decode_body c codec (bytes ++ rest) (record { cmd_type = k; len = n }) in
      header_read c private_key public_key box _ _ _ _ _ (bytes ++ rest)
      ∙ ap₂ read same (cmd_type_of-cmd_byte kind)
      ∙ if_false _ _ (ltb max_frame_len len) (le→ltb _ _ small)
      ∙ body-frame kind bytes rest

  -- With no upgrade to wait for and no header held, a frame of type FrameRecvPacket with a key of 32
  -- bytes and a packet behind it decodes to that key and that packet, where both have at most 2 ^ 20
  -- bytes.
  pub decode-recv_packet :
      (key bytes rest : List ℕ)
      → length key ≡ 32
      → length bytes + 32 ≤ max_frame_len
      → decode c codec (write_frame [] frame_recv_packet (key ++ bytes) ++ rest)
        ≡ (codec, rest, ok (some (frame_recv_packet_response key bytes)))
  unfolding decode_frame
  decode-recv_packet key bytes rest sized small =
      decode-write_frame frame_recv_packet (key ++ bytes) rest
        (omega (arith, length-append key bytes))
      ∙ rw
          (
            le→leb 32 (length (key ++ bytes)) (omega (arith, length-append key bytes)),
            take-append_len 32 key bytes sized,
            drop-append_len 32 key bytes sized,
          )
          refl

  -- The frames on which `decode_frame` panics, by their kind: too short for the slices that it takes.
  abbrev pub IsTooShort : CmdType → List ℕ → Type 0
  IsTooShort frame_server_key bytes = length bytes ≢ 40
  IsTooShort frame_server_info bytes = length bytes < 24
  IsTooShort frame_recv_packet bytes = length bytes < 32
  IsTooShort frame_peer_gone bytes = length bytes < 33
  IsTooShort _ bytes = ⊥

  -- `decode_frame` panics exactly on a server key that has not 40 bytes, a server info of less than
  -- 24, a received packet of less than 32, and a gone peer of less than 33.
  pub decode_frame-panic_iff :
      (d : DerpCodec) (kind : CmdType) (n : ℕ) (bytes : List ℕ)
      → (decode_frame c d (record { cmd_type = kind; len = n }) bytes ≡ panic)
        ↔ IsTooShort kind bytes
  unfolding decode_frame server_key_frame server_info_frame decrypt_data
  decode_frame-panic_iff d frame_server_key n bytes = ground arith
  decode_frame-panic_iff d frame_client_info n bytes = ground arith
  decode_frame-panic_iff d frame_server_info n bytes = ground arith
  decode_frame-panic_iff d frame_send_packet n bytes = ground arith
  decode_frame-panic_iff d frame_recv_packet n bytes = ground arith
  decode_frame-panic_iff d frame_keep_alive n bytes = ground arith
  decode_frame-panic_iff d frame_peer_gone n bytes = ground arith
  decode_frame-panic_iff d frame_forward_packet n bytes = ground arith
  decode_frame-panic_iff d frame_ping n bytes = ground arith
  decode_frame-panic_iff d unknown n bytes = ground arith
