-- ===== src/Protocol.antt =====
-- The packets of vlink-tun/src/noise/protocol.rs, and the errors of noise/error.rs.
-- A fixed-size array is the list of its bytes; `try_into` of a slice of that size cannot fail.
pub mod Layout
pub mod Encoding
pub mod Transport
pub mod Parse
mod Examples
use vlink.Prelude.{
  ℕ, ◌+◌, ◌-◌, ◌^◌, Bool, true, false, ◌&&◌, not, List, [], ◌∷◌, ◌++◌, length, get_or, leb, ltb,
  ◌==◌, if◌then◌else◌,
}
use vlink.Outcome.{Outcome, ok, err, panic, ◌>>=◌, ◌>>◌, require, in_range}
use vlink.Bytes.{from_le_bytes, to_le_bytes, bytes_eq, slice, slice_from}

abbrev pub reject_after_messages : ℕ
reject_after_messages = 2 ^ 64 - 1 - 2 ^ 13

abbrev pub message_type_handshake_initiation : ℕ
message_type_handshake_initiation = 1

abbrev pub message_type_handshake_response : ℕ
message_type_handshake_response = 2

abbrev pub message_type_cookie_reply : ℕ
message_type_cookie_reply = 3

abbrev pub message_type_transport_data : ℕ
message_type_transport_data = 4

abbrev pub handshake_initiation_packet_size : ℕ
handshake_initiation_packet_size = 148

abbrev pub handshake_response_packet_size : ℕ
handshake_response_packet_size = 92

abbrev pub cookie_reply_packet_size : ℕ
cookie_reply_packet_size = 64

abbrev pub min_packet_size : ℕ
min_packet_size = 4

pub data Error : Type 0 where
  invalid_key_length encryption decryption invalid_packet : Error
  invalid_handshake_state receiver_index_not_match : Error

pub record HandshakeInitiation : Type 0 where
  pub sender_index : ℕ
  pub ephemeral_public_key : List ℕ
  pub static_public_key : List ℕ
  pub timestamp : List ℕ
  pub mac1 : List ℕ
  pub mac2 : List ℕ

pub record HandshakeResponse : Type 0 where
  pub sender_index : ℕ
  pub receiver_index : ℕ
  pub ephemeral_public_key : List ℕ
  pub empty : List ℕ
  pub mac1 : List ℕ
  pub mac2 : List ℕ

pub record CookieReply : Type 0 where
  pub receiver_index : ℕ
  pub nonce : List ℕ
  pub cookie : List ℕ

pub record TransportData : Type 0 where
  pub receiver_index : ℕ
  pub counter : ℕ
  pub payload : List ℕ

abbrev pub header : ℕ → List ℕ
header kind = kind ∷ 0 ∷ 0 ∷ 0 ∷ []

-- `value.len() != size || value[0..4] != [kind, 0, 0, 0]`: the slice is taken only at the right size.
abbrev pub check_header : Bool → ℕ → List ℕ → Outcome Error (Unit {0})
check_header sized kind value =
    if sized
    then (do start ← slice 0 4 value; require (bytes_eq start (header kind)) invalid_packet)
    else err invalid_packet

abbrev pub u32_at : ℕ → List ℕ → Outcome Error ℕ
u32_at from value = do bytes ← slice from (from + 4) value; ok (from_le_bytes bytes)

abbrev pub u64_at : ℕ → List ℕ → Outcome Error ℕ
u64_at from value = do bytes ← slice from (from + 8) value; ok (from_le_bytes bytes)

unfoldable pub initiation_of_bytes : List ℕ → Outcome Error HandshakeInitiation
initiation_of_bytes value = do
  check_header (length value == handshake_initiation_packet_size) message_type_handshake_initiation
      value
  index ← u32_at 4 value
  ephemeral ← slice 8 40 value
  static_key ← slice 40 88 value
  stamp ← slice 88 116 value
  m1 ← slice 116 132 value
  m2 ← slice 132 148 value
  ok (record {
    sender_index = index;
    ephemeral_public_key = ephemeral;
    static_public_key = static_key;
    timestamp = stamp;
    mac1 = m1;
    mac2 = m2;
  })

unfoldable pub response_of_bytes : List ℕ → Outcome Error HandshakeResponse
response_of_bytes value = do
  check_header (length value == handshake_response_packet_size) message_type_handshake_response
      value
  index ← u32_at 4 value
  receiver ← u32_at 8 value
  ephemeral ← slice 12 44 value
  sealed ← slice 44 60 value
  m1 ← slice 60 76 value
  m2 ← slice 76 92 value
  ok (record {
    sender_index = index;
    receiver_index = receiver;
    ephemeral_public_key = ephemeral;
    empty = sealed;
    mac1 = m1;
    mac2 = m2;
  })

unfoldable pub cookie_of_bytes : List ℕ → Outcome Error CookieReply
cookie_of_bytes value = do
  check_header (length value == cookie_reply_packet_size) message_type_cookie_reply value
  receiver ← u32_at 4 value
  number ← slice 8 32 value
  sealed ← slice 32 64 value
  ok (record { receiver_index = receiver; nonce = number; cookie = sealed })

unfoldable pub transport_of_bytes : List ℕ → Outcome Error TransportData
transport_of_bytes value = do
  check_header (leb min_packet_size (length value)) message_type_transport_data value
  receiver ← u32_at 4 value
  number ← u64_at 8 value
  sealed ← slice_from 16 value
  ok (record { receiver_index = receiver; counter = number; payload = sealed })

-- `TransportData::packet_len`
unfoldable pub packet_len : TransportData → ℕ
packet_len packet = length packet.payload + 16

-- `TransportData::to_bytes`
unfoldable pub to_bytes : TransportData → List ℕ
to_bytes packet =
    header message_type_transport_data
    ++ (to_le_bytes 4 packet.receiver_index ++ (to_le_bytes 8 packet.counter ++ packet.payload))

pub data Message : Type 0 where
  handshake_initiation : HandshakeInitiation → Message
  handshake_response : HandshakeResponse → Message
  cookie_reply : CookieReply → Message
  transport_data : TransportData → Message

-- `Message::parse`. The length is tested first, so `payload[0]` exists.
unfoldable pub parse : List ℕ → Outcome Error Message
parse payload =
    if ltb (length payload) min_packet_size
    then err invalid_packet
    else (let kind = get_or payload 0 0 in
        if kind == message_type_handshake_initiation
        then (do p ← initiation_of_bytes payload; ok (handshake_initiation p))
        else if kind == message_type_handshake_response
        then (do p ← response_of_bytes payload; ok (handshake_response p))
        else if kind == message_type_cookie_reply
        then (do p ← cookie_of_bytes payload; ok (cookie_reply p))
        else if kind == message_type_transport_data
        then (do p ← transport_of_bytes payload; ok (transport_data p))
        else err invalid_packet)

-- `Message::is_handshake`, which indexes `payload[0]`.
unfoldable pub is_handshake : List ℕ → Outcome Error Bool
is_handshake payload = do
  in_range (ltb 0 (length payload))
  let kind = get_or payload 0 0
  ok (
      if kind == message_type_handshake_initiation
        && length payload == handshake_initiation_packet_size
      then true
      else kind == message_type_handshake_response
        && length payload == handshake_response_packet_size)
