-- ===== src/Protocol/Examples.antt =====
-- The packet theorems at concrete packets.
use vlink.Prelude.{ℕ, ◌≡◌, refl, List, [], ◌∷◌, arith}
use vlink.Outcome.{ok, err}
use vlink.Bytes.{bytes_eq}
use vlink.Protocol.{
  TransportData, transport_data, invalid_packet, parse, to_bytes, transport_of_bytes,
}
use vlink.Protocol.Transport.{parse-to_bytes}

abbrev packet : TransportData
packet = record { receiver_index = 0x01020304; counter = 7; payload = 9 ∷ 8 ∷ [] }

abbrev packet_bytes : List ℕ
packet_bytes = 4 ∷ 0 ∷ 0 ∷ 0 ∷ 4 ∷ 3 ∷ 2 ∷ 1 ∷ 7 ∷ 0 ∷ 0 ∷ 0 ∷ 0 ∷ 0 ∷ 0 ∷ 0 ∷ 9 ∷ 8 ∷ []

to_bytes_example : to_bytes packet ≡ packet_bytes
unfolding to_bytes
to_bytes_example = refl

parse_unknown : parse (5 ∷ 0 ∷ 0 ∷ 0 ∷ []) ≡ err invalid_packet
unfolding parse
parse_unknown = refl

parse_short : parse (4 ∷ 0 ∷ 0 ∷ []) ≡ err invalid_packet
unfolding parse
parse_short = refl

parse-to_bytes_example : parse (to_bytes packet) ≡ ok (transport_data packet)
parse-to_bytes_example = parse-to_bytes packet (omega arith)

packet_read : parse packet_bytes ≡ ok (transport_data packet)
unfolding parse transport_of_bytes bytes_eq
packet_read = refl
