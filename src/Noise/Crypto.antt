-- ===== src/Noise/Crypto.antt =====
-- vlink-tun/src/noise/crypto.rs over the crates that it calls. A key, a digest or a sealed text is
-- the list of its bytes.
use vlink.Prelude.{ℕ, Bool, List, [], ◌∷◌, ◌++◌, replicate, Option, none, some, if◌then◌else◌}
use vlink.Outcome.{Outcome, ok, err}
use vlink.Bytes.{to_le_bytes}
use vlink.Protocol.{Error, invalid_key_length, encryption, decryption}

-- What blake2, hmac, x25519-dalek and chacha20poly1305 provide. `seal` and `unseal` take the key, the
-- nonce, the text and the associated data, and give none where the crate returns an error.
pub record Primitives : Type 0 where
  pub blake2s : List ℕ → List ℕ
  pub blake2s_mac : List ℕ → List ℕ → List ℕ
  pub hmac_blake2s : List ℕ → List ℕ → List ℕ
  pub public_of : List ℕ → List ℕ
  pub x25519 : List ℕ → List ℕ → List ℕ
  pub is_key : List ℕ → Bool
  pub seal : List ℕ → List ℕ → List ℕ → List ℕ → Option (List ℕ)
  pub unseal : List ℕ → List ℕ → List ℕ → List ℕ → Option (List ℕ)
  pub xseal : List ℕ → List ℕ → List ℕ → List ℕ → Option (List ℕ)

abbrev pub or_error : Option (List ℕ) → Error → Outcome Error (List ℕ)
or_error none e = err e
or_error (some bytes) e = ok bytes

-- Four zeros and the counter.
abbrev pub nonce_of : ℕ → List ℕ
nonce_of counter = 0 ∷ 0 ∷ 0 ∷ 0 ∷ to_le_bytes 8 counter

pub record LocalStaticSecret : Type 0 where
  pub private : List ℕ
  pub public : List ℕ

pub record PeerStaticSecret : Type 0 where
  pub local : LocalStaticSecret
  pub public : List ℕ
  pub psk : List ℕ

-- `PeerStaticSecret::new`, which `with_peer` calls.
unfoldable pub with_peer : LocalStaticSecret → List ℕ → PeerStaticSecret
with_peer local key = record { local = local; public = key; psk = replicate 32 0 }

unfoldable pub set_psk : PeerStaticSecret → List ℕ → PeerStaticSecret
set_psk secret key = record secret { psk = key }

module _ (p : Primitives) where
  unfoldable pub local_secret : List ℕ → LocalStaticSecret
  local_secret key = record { private = key; public = p.public_of key }

  unfoldable pub hash : List ℕ → List ℕ → List ℕ
  hash in1 in2 = p.blake2s (in1 ++ in2)

  unfoldable pub mac : List ℕ → List ℕ → List ℕ
  mac key in0 = p.blake2s_mac key in0

  unfoldable pub hmac1 : List ℕ → List ℕ → List ℕ
  hmac1 key in0 = p.hmac_blake2s key in0

  unfoldable pub hmac2 : List ℕ → List ℕ → List ℕ → List ℕ
  hmac2 key in0 in1 = p.hmac_blake2s key (in0 ++ in1)

  unfoldable pub kdf1 : List ℕ → List ℕ → List ℕ
  kdf1 key in0 = hmac1 (hmac1 key in0) (1 ∷ [])

  unfoldable pub kdf2 : List ℕ → List ℕ → List ℕ × List ℕ
  kdf2 key in0 =
      let prk = hmac1 key in0 in
      let t0 = hmac1 prk (1 ∷ []) in let t1 = hmac2 prk t0 (2 ∷ []) in (t0, t1)

  unfoldable pub kdf3 : List ℕ → List ℕ → List ℕ × List ℕ × List ℕ
  kdf3 key in0 =
      let prk = hmac1 key in0 in
      let t0 = hmac1 prk (1 ∷ []) in
      let t1 = hmac2 prk t0 (2 ∷ []) in let t2 = hmac2 prk t1 (3 ∷ []) in (t0, t1, t2)

  unfoldable pub aead_encrypt : List ℕ → ℕ → List ℕ → List ℕ → Outcome Error (List ℕ)
  aead_encrypt key counter msg aad =
      if p.is_key key
      then or_error (p.seal key (nonce_of counter) msg aad) encryption
      else err invalid_key_length

  unfoldable pub aead_decrypt : List ℕ → ℕ → List ℕ → List ℕ → Outcome Error (List ℕ)
  aead_decrypt key counter msg aad =
      if p.is_key key
      then or_error (p.unseal key (nonce_of counter) msg aad) decryption
      else err invalid_key_length

  unfoldable pub xaead_encrypt : List ℕ → List ℕ → List ℕ → List ℕ → Outcome Error (List ℕ)
  xaead_encrypt key nonce msg aad =
      if p.is_key key
      then or_error (p.xseal key nonce msg aad) encryption
      else err invalid_key_length
