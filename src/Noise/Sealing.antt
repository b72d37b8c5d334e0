-- ===== src/Noise/Sealing.antt =====
-- Sealed texts, keys and macs: what the handshake's proofs take from the crates' laws.
use vlink.Prelude.{ℕ, ◌+◌, ◌≡◌, refl, true, List, length, some, arith}
use vlink.Outcome.{Outcome, ok, err, panic, ◌>>=◌, unwrap}
use vlink.Protocol.{Error}
use vlink.Noise.Crypto.{Primitives, kdf2, kdf3, hmac2, mac, aead_encrypt, aead_decrypt, nonce_of}
use vlink.Noise.Cookie.{MacGenerator, generate_mac1, generate_mac2}
use vlink.Noise.Laws.{IsLawful}

-- Inversion of `unwrap` in front of the rest of a function.
pub unwrap-eq-ok {ℓ} :
    {A : Type ℓ} {B : Type ℓ} (m : Outcome Error A) (f : A → Outcome Error B) {b : B}
    → (unwrap m >>= f) ≡ ok b
    → (a : A) × (m ≡ ok a) × (f a ≡ ok b)
unwrap-eq-ok (ok a) f h = (a, refl, h)
unwrap-eq-ok (err e) f h = cc
unwrap-eq-ok panic f h = cc

pub ok-pair_injective {ℓ} :
    {A : Type ℓ} (a b : A) (xs ys : List ℕ)
    → ◌≡◌ {A = Outcome Error (A × List ℕ)} (ok (a, xs)) (ok (b, ys))
    → (b ≡ a) × (ys ≡ xs)
ok-pair_injective a b xs ys h = ground arith

module _ (p : Primitives) (law : IsLawful p) where
  -- What `aead_encrypt` seals under a key of 32 bytes, `aead_decrypt` opens.
  pub aead_opens :
      (key : List ℕ) (counter : ℕ) (msg aad : List ℕ) {sealed : List ℕ}
      → length key ≡ 32
      → aead_encrypt p key counter msg aad ≡ ok sealed
      → (aead_decrypt p key counter sealed aad ≡ ok msg) × (length sealed ≡ length msg + 16)
  unfolding aead_encrypt aead_decrypt
  aead_opens key counter msg aad {sealed} sized e =
      let key_ok : p.is_key key ≡ true = law.is_key_sized key sized in
      let made : p.seal key (nonce_of counter) msg aad ≡ some sealed = ground arith in
      (
        ground (arith, law.unseal-seal key (nonce_of counter) msg aad made),
        law.length-seal key (nonce_of counter) msg aad made,
      )

  pub length-kdf2 : (key in0 : List ℕ) → length (kdf2 p key in0).1 ≡ 32
  unfolding kdf2 hmac2
  length-kdf2 key in0 = law.length-hmac_blake2s _ _

  pub length-kdf3 : (key in0 : List ℕ) → length (kdf3 p key in0).2 ≡ 32
  unfolding kdf3 hmac2
  length-kdf3 key in0 = law.length-hmac_blake2s _ _

  pub length-generate_mac1 :
      (macs : MacGenerator) (buf : List ℕ) → length (generate_mac1 p macs buf) ≡ 16
  unfolding generate_mac1 mac
  length-generate_mac1 macs buf = law.length-blake2s_mac _ _

  pub length-generate_mac2 :
      (macs : MacGenerator) (now : ℕ) (buf : List ℕ) → length (generate_mac2 p macs now buf) ≡ 16
  unfolding generate_mac2 mac
  length-generate_mac2 macs now buf =
      ground (arith, law.length-blake2s_mac macs.peer_cookie_hash buf)
