-- ===== src/Bytes/Codec.antt =====
-- Little- and big-endian integers of a given width.
use vlink.Prelude.{
  ℕ, zero, suc, ◌+◌, ◌*◌, ◌/◌, ◌%◌, ◌^◌, ◌<◌, ◌≡◌, refl, ap, ap₂, ◌∙◌, List, [], ◌∷◌, length,
  length-append, All, arith,
}
use mathlib.Core.List.{reverse, reverse-reverse, reverse-cons}
use native.Mathlib.Nat.{pow-suc}

abbrev pub IsByte : ℕ → Type 0
IsByte b = b < 256

-- `u32::to_le_bytes` is `to_le_bytes 4`, and `u64::to_le_bytes` is `to_le_bytes 8`.
abbrev pub to_le_bytes : ℕ → ℕ → List ℕ
to_le_bytes zero v = []
to_le_bytes (suc n) v = v % 256 ∷ to_le_bytes n (v / 256)

abbrev pub from_le_bytes : List ℕ → ℕ
from_le_bytes [] = 0
from_le_bytes (b ∷ bs) = b + 256 * from_le_bytes bs

abbrev pub to_be_bytes : ℕ → ℕ → List ℕ
to_be_bytes n v = reverse (to_le_bytes n v)

abbrev pub from_be_bytes : List ℕ → ℕ
from_be_bytes bs = from_le_bytes (reverse bs)

pub length-to_le_bytes : (n v : ℕ) → length (to_le_bytes n v) ≡ n
length-to_le_bytes zero v = refl
length-to_le_bytes (suc n) v = ap suc (length-to_le_bytes n (v / 256))

length-reverse : (bs : List ℕ) → length (reverse bs) ≡ length bs
length-reverse [] = refl
length-reverse (b ∷ bs) =
    ap length (reverse-cons b bs)
    ∙ length-append (reverse bs) (b ∷ [])
    ∙ omega (arith, length-reverse bs)

pub length-to_be_bytes : (n v : ℕ) → length (to_be_bytes n v) ≡ n
length-to_be_bytes n v = length-reverse (to_le_bytes n v) ∙ length-to_le_bytes n v

pub to_le_bytes-IsByte : (n v : ℕ) → All IsByte (to_le_bytes n v)
to_le_bytes-IsByte zero v = tt
to_le_bytes-IsByte (suc n) v = (omega arith, to_le_bytes-IsByte n (v / 256))

pub div_bound : (n v : ℕ) → v < 256 ^ suc n → v / 256 < 256 ^ n
div_bound n v h = omega (arith, pow-suc 256 n)

pub from-to_le_bytes : (n v : ℕ) → v < 256 ^ n → from_le_bytes (to_le_bytes n v) ≡ v
from-to_le_bytes zero v h = omega arith
from-to_le_bytes (suc n) v h = omega (arith, from-to_le_bytes n (v / 256) (div_bound n v h))

pub to-from_le_bytes :
    (bs : List ℕ) → All IsByte bs → to_le_bytes (length bs) (from_le_bytes bs) ≡ bs
to-from_le_bytes [] h = refl
to-from_le_bytes (b ∷ bs) h =
    ap₂ ◌∷◌ (omega (arith, h.0))
      (ap (to_le_bytes (length bs)) (omega (arith, h.0)) ∙ to-from_le_bytes bs h.1)

pub from-to_be_bytes : (n v : ℕ) → v < 256 ^ n → from_be_bytes (to_be_bytes n v) ≡ v
from-to_be_bytes n v h =
    ap from_le_bytes (reverse-reverse (to_le_bytes n v)) ∙ from-to_le_bytes n v h
