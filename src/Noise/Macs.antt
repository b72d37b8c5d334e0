-- ===== src/Noise/Macs.antt =====
-- The receiver's check of `mac1` accepts every packet that was made for its public key.
use vlink.Prelude.{
  ℕ, ◌+◌, ◌-◌, ◌≡◌, refl, ap, ap₂, ◌∙◌, Bool, true, List, ◌++◌, length, le→leb, take-append_len,
  drop-append_len, length-append, arith,
}
use mathlib.Core.List.{append_assoc}
use vlink.Outcome.{Outcome, ok}
use vlink.Bytes.{bytes_eq, bytes_eq_iff}
use vlink.Protocol.{Error}
use vlink.Noise.Crypto.{Primitives, LocalStaticSecret, PeerStaticSecret, mac}
use vlink.Noise.Cookie.{
  MacGenerator, Cookie, mac_generator, new_cookie, generate_mac1, generate_mac2, validate_mac1,
}
use vlink.Noise.Handshake.{with_macs}
use vlink.Noise.Laws.{IsLawful}
use vlink.Noise.Sealing.{length-generate_mac1, length-generate_mac2}

module _ (p : Primitives) (cookie : Cookie) (buf m1 m2 : List ℕ) (first : length m1 ≡ 16)
    (second : length m2 ≡ 16) where
  signed-length : length (buf ++ (m1 ++ m2)) ≡ length buf + 32
  signed-length =
      length-append buf _ ∙ ap (◌+◌ (length buf)) (length-append m1 m2 ∙ ap₂ ◌+◌ first second)

  signed-split : length (buf ++ (m1 ++ m2)) - 32 ≡ length buf
  signed-split = omega (arith, signed-length)

  -- The check reads the packet without the macs, and compares the first of them.
  validate_mac1-eq :
      validate_mac1 p cookie (buf ++ (m1 ++ m2)) ≡ ok (bytes_eq m1 (mac p cookie.mac1_hash buf))
  unfolding validate_mac1
  validate_mac1-eq = rw (
    le→leb 32 (length (buf ++ (m1 ++ m2))) (omega (arith, signed-length)),
    signed-split,
    take-append_len (length buf) buf (m1 ++ m2) refl,
    drop-append_len (length buf) buf (m1 ++ m2) refl,
    take-append_len 16 m1 m2 first,
  )

same_mac :
    (p : Primitives) (receiver : LocalStaticSecret) (secret : PeerStaticSecret) (buf : List ℕ)
    → secret.public ≡ receiver.public
    → generate_mac1 p (mac_generator p secret) buf ≡ mac p (new_cookie p receiver).mac1_hash buf
unfolding generate_mac1 mac_generator new_cookie
same_mac p receiver secret buf same = rw same

-- Under lawful crates, `validate_mac1` of a receiver accepts every message that was signed for the
-- receiver's public key.
pub validate_mac1-with_macs :
    (p : Primitives)
    → IsLawful p
    → (receiver : LocalStaticSecret) (secret : PeerStaticSecret) (now : ℕ) (buf : List ℕ)
    → secret.public ≡ receiver.public
    → validate_mac1 p (new_cookie p receiver) (with_macs p (mac_generator p secret) now buf)
      ≡ ok true
unfolding with_macs
validate_mac1-with_macs p law receiver secret now buf same =
    let macs : MacGenerator = mac_generator p secret in
    let m1 : List ℕ = generate_mac1 p macs buf in
    let m2 : List ℕ = generate_mac2 p macs now (buf ++ m1) in
    ap (validate_mac1 p (new_cookie p receiver)) (append_assoc buf m1 m2)
    ∙ validate_mac1-eq p (new_cookie p receiver) buf m1 m2 (length-generate_mac1 p law macs buf)
        (length-generate_mac2 p law macs now (buf ++ m1))
    ∙ ap {B = Outcome Error Bool} ok ((bytes_eq_iff _ _).1 (same_mac p receiver secret buf same))
