-- ===== src/Protocol/Encoding.antt =====
-- The handshake packets by their fields, as the two `new` functions lay them out: `try_from` reads
-- the fields back.
use vlink.Prelude.{
  ℕ, ◌+◌, ◌^◌, ◌≤◌, ◌<◌, ◌≡◌, refl, ap, ap₂, ◌∙◌, List, ◌++◌, length, take, drop, get_or,
  take-append_len, drop-append_add, take_all, length-append, arith,
}
use vlink.Outcome.{Outcome, ok, ◌>>=◌}
use vlink.Bytes.{to_le_bytes, from-to_le_bytes}
use vlink.Protocol.{
  Error, header, HandshakeInitiation, HandshakeResponse, initiation_of_bytes, response_of_bytes,
  parse, Message, handshake_initiation, handshake_response,
}
use vlink.Protocol.Layout.{IsPacket, initiation_fields, initiation-eq, response_fields, response-eq}

-- The packets that the handshake writes, by their fields.
abbrev pub initiation_bytes : HandshakeInitiation → List ℕ
initiation_bytes p =
    header 1
    ++ (to_le_bytes 4 p.sender_index
        ++ (p.ephemeral_public_key ++ (p.static_public_key ++ (p.timestamp ++ (p.mac1 ++ p.mac2)))))

abbrev pub response_bytes : HandshakeResponse → List ℕ
response_bytes p =
    header 2
    ++ (to_le_bytes 4 p.sender_index
        ++ (to_le_bytes 4 p.receiver_index
            ++ (p.ephemeral_public_key ++ (p.empty ++ (p.mac1 ++ p.mac2)))))

-- The widths of the array types.
pub record IsInitiation (p : HandshakeInitiation) : Type 0 where
  pub index_u32 : p.sender_index < 256 ^ 4
  pub ephemeral : length p.ephemeral_public_key ≡ 32
  pub static_key : length p.static_public_key ≡ 48
  pub stamp : length p.timestamp ≡ 28
  pub first_mac : length p.mac1 ≡ 16
  pub second_mac : length p.mac2 ≡ 16

pub record IsResponse (p : HandshakeResponse) : Type 0 where
  pub index_u32 : p.sender_index < 256 ^ 4
  pub receiver_u32 : p.receiver_index < 256 ^ 4
  pub ephemeral : length p.ephemeral_public_key ≡ 32
  pub sealed : length p.empty ≡ 16
  pub first_mac : length p.mac1 ≡ 16
  pub second_mac : length p.mac2 ≡ 16

parse_first :
    (bs : List ℕ)
    → 4 ≤ length bs
    → get_or bs 0 0 ≡ 1
    → parse bs ≡ (initiation_of_bytes bs >>= λ q. ok (handshake_initiation q))
unfolding parse
parse_first bs h e = ground arith

parse_second :
    (bs : List ℕ)
    → 4 ≤ length bs
    → get_or bs 0 0 ≡ 2
    → parse bs ≡ (response_of_bytes bs >>= λ q. ok (handshake_response q))
unfolding parse
parse_second bs h e = ground arith

-- The parts of a packet behind its integers, cut where the source cuts them.
module _ (e s t m n : List ℕ) (he : length e ≡ 32) (hs : length s ≡ 48) (ht : length t ≡ 28)
    (hm : length m ≡ 16) (hn : length n ≡ 16) where
  body : List ℕ
  body = e ++ (s ++ (t ++ (m ++ n)))

  length-body : length body ≡ 140
  unfolding body
  length-body =
      length-append e _
      ∙ ap₂ ◌+◌ he (
          length-append s _
          ∙ ap₂ ◌+◌ hs (length-append t _ ∙ ap₂ ◌+◌ ht (length-append m n ∙ ap₂ ◌+◌ hm hn)))

  body_at_static : take 48 (drop 32 body) ≡ s
  unfolding body
  body_at_static = ap (take 48) (drop-append_add 32 0 e _ he) ∙ take-append_len 48 s _ hs

  body_at_timestamp : take 28 (drop 80 body) ≡ t
  unfolding body
  body_at_timestamp =
      ap (take 28) (drop-append_add 32 48 e _ he ∙ drop-append_add 48 0 s _ hs)
      ∙ take-append_len 28 t _ ht

  body_at_mac1 : take 16 (drop 108 body) ≡ m
  unfolding body
  body_at_mac1 =
      ap (take 16)
        (drop-append_add 32 76 e _ he ∙ drop-append_add 48 28 s _ hs ∙ drop-append_add 28 0 t _ ht)
      ∙ take-append_len 16 m _ hm

  body_at_mac2 : take 16 (drop 124 body) ≡ n
  unfolding body
  body_at_mac2 =
      ap (take 16) (
        drop-append_add 32 92 e _ he
        ∙ drop-append_add 48 44 s _ hs
        ∙ drop-append_add 28 16 t _ ht
        ∙ drop-append_add 16 0 m _ hm)
      ∙ take_all n 16 hn

pub initiation_fields-bytes :
    (p : HandshakeInitiation) → IsInitiation p → initiation_fields (initiation_bytes p) ≡ p
unfolding body
initiation_fields-bytes p v = λ i. record {
  sender_index = from-to_le_bytes 4 p.sender_index v.index_u32 i;
  ephemeral_public_key =
      take-append_len 32 p.ephemeral_public_key
        (p.static_public_key ++ (p.timestamp ++ (p.mac1 ++ p.mac2))) v.ephemeral i;
  static_public_key =
      body_at_static p.ephemeral_public_key p.static_public_key p.timestamp p.mac1 p.mac2
        v.ephemeral v.static_key v.stamp v.first_mac v.second_mac i;
  timestamp =
      body_at_timestamp p.ephemeral_public_key p.static_public_key p.timestamp p.mac1 p.mac2
        v.ephemeral v.static_key v.stamp v.first_mac v.second_mac i;
  mac1 =
      body_at_mac1 p.ephemeral_public_key p.static_public_key p.timestamp p.mac1 p.mac2 v.ephemeral
        v.static_key v.stamp v.first_mac v.second_mac i;
  mac2 =
      body_at_mac2 p.ephemeral_public_key p.static_public_key p.timestamp p.mac1 p.mac2 v.ephemeral
        v.static_key v.stamp v.first_mac v.second_mac i;
}

pub initiation_bytes-IsPacket :
    (p : HandshakeInitiation) → IsInitiation p → IsPacket 148 1 (initiation_bytes p)
unfolding body
initiation_bytes-IsPacket p v = record {
  sized = omega (
    arith,
    length-body p.ephemeral_public_key p.static_public_key p.timestamp p.mac1 p.mac2 v.ephemeral
        v.static_key v.stamp v.first_mac v.second_mac,
  );
  start = refl;
}

-- An initiation packet laid out by its fields is read back as those fields.
pub parse-initiation_bytes :
    (p : HandshakeInitiation)
    → IsInitiation p
    → parse (initiation_bytes p) ≡ ok (handshake_initiation p)
parse-initiation_bytes p v =
    parse_first (initiation_bytes p) (omega (arith, (initiation_bytes-IsPacket p v).sized)) refl
    ∙ ap {B = Outcome Error Message} (λ r. r >>= λ q. ok (handshake_initiation q))
        (initiation-eq (initiation_bytes p) (initiation_bytes-IsPacket p v)
          ∙ ap {B = Outcome Error HandshakeInitiation} ok (initiation_fields-bytes p v))

module _ (e s m n : List ℕ) (he : length e ≡ 32) (hs : length s ≡ 16) (hm : length m ≡ 16)
    (hn : length n ≡ 16) where
  reply : List ℕ
  reply = e ++ (s ++ (m ++ n))

  length-reply : length reply ≡ 80
  unfolding reply
  length-reply =
      length-append e _
      ∙ ap₂ ◌+◌ he (length-append s _ ∙ ap₂ ◌+◌ hs (length-append m n ∙ ap₂ ◌+◌ hm hn))

  reply_at_empty : take 16 (drop 32 reply) ≡ s
  unfolding reply
  reply_at_empty = ap (take 16) (drop-append_add 32 0 e _ he) ∙ take-append_len 16 s _ hs

  reply_at_mac1 : take 16 (drop 48 reply) ≡ m
  unfolding reply
  reply_at_mac1 =
      ap (take 16) (drop-append_add 32 16 e _ he ∙ drop-append_add 16 0 s _ hs)
      ∙ take-append_len 16 m _ hm

  reply_at_mac2 : take 16 (drop 64 reply) ≡ n
  unfolding reply
  reply_at_mac2 =
      ap (take 16)
        (drop-append_add 32 32 e _ he ∙ drop-append_add 16 16 s _ hs ∙ drop-append_add 16 0 m _ hm)
      ∙ take_all n 16 hn

pub response_fields-bytes :
    (p : HandshakeResponse) → IsResponse p → response_fields (response_bytes p) ≡ p
unfolding reply
response_fields-bytes p v = λ i. record {
  sender_index = from-to_le_bytes 4 p.sender_index v.index_u32 i;
  receiver_index = from-to_le_bytes 4 p.receiver_index v.receiver_u32 i;
  ephemeral_public_key =
      take-append_len 32 p.ephemeral_public_key (p.empty ++ (p.mac1 ++ p.mac2)) v.ephemeral i;
  empty =
      reply_at_empty p.ephemeral_public_key p.empty p.mac1 p.mac2 v.ephemeral v.sealed v.first_mac
        v.second_mac i;
  mac1 =
      reply_at_mac1 p.ephemeral_public_key p.empty p.mac1 p.mac2 v.ephemeral v.sealed v.first_mac
        v.second_mac i;
  mac2 =
      reply_at_mac2 p.ephemeral_public_key p.empty p.mac1 p.mac2 v.ephemeral v.sealed v.first_mac
        v.second_mac i;
}

pub response_bytes-IsPacket :
    (p : HandshakeResponse) → IsResponse p → IsPacket 92 2 (response_bytes p)
unfolding reply
response_bytes-IsPacket p v = record {
  sized = omega (
    arith,
    length-reply p.ephemeral_public_key p.empty p.mac1 p.mac2 v.ephemeral v.sealed v.first_mac
        v.second_mac,
  );
  start = refl;
}

-- A response packet laid out by its fields is read back as those fields.
pub parse-response_bytes :
    (p : HandshakeResponse) → IsResponse p → parse (response_bytes p) ≡ ok (handshake_response p)
parse-response_bytes p v =
    parse_second (response_bytes p) (omega (arith, (response_bytes-IsPacket p v).sized)) refl
    ∙ ap {B = Outcome Error Message} (λ r. r >>= λ q. ok (handshake_response q))
        (response-eq (response_bytes p) (response_bytes-IsPacket p v)
          ∙ ap {B = Outcome Error HandshakeResponse} ok (response_fields-bytes p v))
