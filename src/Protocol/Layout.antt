-- ===== src/Protocol/Layout.antt =====
-- How the three packets of fixed size are cut: `try_from` accepts exactly the byte strings of the
-- packet's size and kind.
use vlink.Prelude.{ℕ, ◌≡◌, true, false, List, length, take, drop, Bool-cases, ==_ne, ◌⊎◌, inl, inr}
use native.Mathlib.Decide.{ℕ_discrete}
use vlink.Outcome.{ok, err}
use vlink.Bytes.{from_le_bytes, bytes_eq, bytes_eq_iff}
use vlink.Protocol.{
  invalid_packet, header, HandshakeInitiation, HandshakeResponse, CookieReply, initiation_of_bytes,
  response_of_bytes, cookie_of_bytes,
}

-- The size and the first four bytes of a packet.
pub record IsPacket (size kind : ℕ) (bs : List ℕ) : Type 0 where
  pub sized : length bs ≡ size
  pub start : take 4 bs ≡ header kind

abbrev pub initiation_fields : List ℕ → HandshakeInitiation
initiation_fields bs = record {
  sender_index = from_le_bytes (take 4 (drop 4 bs));
  ephemeral_public_key = take 32 (drop 8 bs);
  static_public_key = take 48 (drop 40 bs);
  timestamp = take 28 (drop 88 bs);
  mac1 = take 16 (drop 116 bs);
  mac2 = take 16 (drop 132 bs);
}

abbrev pub response_fields : List ℕ → HandshakeResponse
response_fields bs = record {
  sender_index = from_le_bytes (take 4 (drop 4 bs));
  receiver_index = from_le_bytes (take 4 (drop 8 bs));
  ephemeral_public_key = take 32 (drop 12 bs);
  empty = take 16 (drop 44 bs);
  mac1 = take 16 (drop 60 bs);
  mac2 = take 16 (drop 76 bs);
}

abbrev pub cookie_fields : List ℕ → CookieReply
cookie_fields bs = record {
  receiver_index = from_le_bytes (take 4 (drop 4 bs));
  nonce = take 24 (drop 8 bs);
  cookie = take 32 (drop 32 bs);
}

initiation_ok :
    (bs : List ℕ)
    → length bs ≡ 148
    → bytes_eq (take 4 bs) (header 1) ≡ true
    → initiation_of_bytes bs ≡ ok (initiation_fields bs)
unfolding initiation_of_bytes
initiation_ok bs e s = rw (e, s)

pub initiation-eq :
    (bs : List ℕ) → IsPacket 148 1 bs → initiation_of_bytes bs ≡ ok (initiation_fields bs)
initiation-eq bs p = initiation_ok bs p.sized ((bytes_eq_iff _ _).1 p.start)

-- Each byte string is cut, or refused with an error.
pub initiation-cases :
    (bs : List ℕ)
    → (IsPacket 148 1 bs × (initiation_of_bytes bs ≡ ok (initiation_fields bs)))
      ⊎ (¬ IsPacket 148 1 bs × (initiation_of_bytes bs ≡ err invalid_packet))
unfolding initiation_of_bytes
initiation-cases bs = elim (ℕ_discrete (length bs) 148) [
  | no e ↦ inr ((λ p. e p.sized), rw (==_ne (length bs) 148 e))
  | yes e ↦ elim (Bool-cases (bytes_eq (take 4 bs) (header 1))) [
    | inl s ↦ inl (record { sized = e; start = (bytes_eq_iff _ _).0 s }, initiation_ok bs e s)
    | inr s ↦ inr (wrong_start s, rw (e, s))
  ]
]
  where
    wrong_start : bytes_eq (take 4 bs) (header 1) ≡ false → ¬ IsPacket 148 1 bs
    wrong_start s p =
        let right : bytes_eq (take 4 bs) (header 1) ≡ true = (bytes_eq_iff _ _).1 p.start in cc

response_ok :
    (bs : List ℕ)
    → length bs ≡ 92
    → bytes_eq (take 4 bs) (header 2) ≡ true
    → response_of_bytes bs ≡ ok (response_fields bs)
unfolding response_of_bytes
response_ok bs e s = rw (e, s)

pub response-eq : (bs : List ℕ) → IsPacket 92 2 bs → response_of_bytes bs ≡ ok (response_fields bs)
response-eq bs p = response_ok bs p.sized ((bytes_eq_iff _ _).1 p.start)

-- Each byte string is cut, or refused with an error.
pub response-cases :
    (bs : List ℕ)
    → (IsPacket 92 2 bs × (response_of_bytes bs ≡ ok (response_fields bs)))
      ⊎ (¬ IsPacket 92 2 bs × (response_of_bytes bs ≡ err invalid_packet))
unfolding response_of_bytes
response-cases bs = elim (ℕ_discrete (length bs) 92) [
  | no e ↦ inr ((λ p. e p.sized), rw (==_ne (length bs) 92 e))
  | yes e ↦ elim (Bool-cases (bytes_eq (take 4 bs) (header 2))) [
    | inl s ↦ inl (record { sized = e; start = (bytes_eq_iff _ _).0 s }, response_ok bs e s)
    | inr s ↦ inr (wrong_start s, rw (e, s))
  ]
]
  where
    wrong_start : bytes_eq (take 4 bs) (header 2) ≡ false → ¬ IsPacket 92 2 bs
    wrong_start s p =
        let right : bytes_eq (take 4 bs) (header 2) ≡ true = (bytes_eq_iff _ _).1 p.start in cc

cookie_ok :
    (bs : List ℕ)
    → length bs ≡ 64
    → bytes_eq (take 4 bs) (header 3) ≡ true
    → cookie_of_bytes bs ≡ ok (cookie_fields bs)
unfolding cookie_of_bytes
cookie_ok bs e s = rw (e, s)

pub cookie-eq : (bs : List ℕ) → IsPacket 64 3 bs → cookie_of_bytes bs ≡ ok (cookie_fields bs)
cookie-eq bs p = cookie_ok bs p.sized ((bytes_eq_iff _ _).1 p.start)

-- Each byte string is cut, or refused with an error.
pub cookie-cases :
    (bs : List ℕ)
    → (IsPacket 64 3 bs × (cookie_of_bytes bs ≡ ok (cookie_fields bs)))
      ⊎ (¬ IsPacket 64 3 bs × (cookie_of_bytes bs ≡ err invalid_packet))
unfolding cookie_of_bytes
cookie-cases bs = elim (ℕ_discrete (length bs) 64) [
  | no e ↦ inr ((λ p. e p.sized), rw (==_ne (length bs) 64 e))
  | yes e ↦ elim (Bool-cases (bytes_eq (take 4 bs) (header 3))) [
    | inl s ↦ inl (record { sized = e; start = (bytes_eq_iff _ _).0 s }, cookie_ok bs e s)
    | inr s ↦ inr (wrong_start s, rw (e, s))
  ]
]
  where
    wrong_start : bytes_eq (take 4 bs) (header 3) ≡ false → ¬ IsPacket 64 3 bs
    wrong_start s p =
        let right : bytes_eq (take 4 bs) (header 3) ≡ true = (bytes_eq_iff _ _).1 p.start in cc
