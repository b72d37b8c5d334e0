-- ===== src/Noise/Laws.antt =====
-- What the handshake relies on in the crates: the widths of their results, that the two sides of a
-- Diffie-Hellman exchange agree, and that a sealed text opens.
use vlink.Prelude.{ℕ, ◌+◌, ◌≡◌, true, List, length, some}
use vlink.Noise.Crypto.{Primitives}

pub record IsLawful (p : Primitives) : Type 0 where
  pub length-public_of : (key : List ℕ) → length (p.public_of key) ≡ 32
  pub length-blake2s_mac : (key msg : List ℕ) → length (p.blake2s_mac key msg) ≡ 16
  pub length-hmac_blake2s : (key msg : List ℕ) → length (p.hmac_blake2s key msg) ≡ 32
  pub x25519_comm : (a b : List ℕ) → p.x25519 a (p.public_of b) ≡ p.x25519 b (p.public_of a)
  pub is_key_sized : (key : List ℕ) → length key ≡ 32 → p.is_key key ≡ true
  pub length-seal :
      (key nonce msg aad : List ℕ) {sealed : List ℕ}
      → p.seal key nonce msg aad ≡ some sealed
      → length sealed ≡ length msg + 16
  pub unseal-seal :
      (key nonce msg aad : List ℕ) {sealed : List ℕ}
      → p.seal key nonce msg aad ≡ some sealed
      → p.unseal key nonce sealed aad ≡ some msg
