-- ===== src/Replay/Bitmap.antt =====
-- The bitmap as one row of 1024 bits: a write changes the bit that it names and no other.
use vlink.Prelude.{
  ℕ, ◌-◌, ◌*◌, ◌/◌, ◌<◌, ◌≡◌, ◌≢◌, refl, ap, ◌∙◌, Bool, false, List, ◌∷◌, [], All, length,
  replicate, get_or, set, length-set, get_or-set_self, get_or-set_ne, get_or-replicate_self, zero,
  suc, arith,
}
use native.Mathlib.Decide.{ℕ_discrete}
use vlink.Replay.{get_bit, put_bit, empty_words}

abbrev pub place : ℕ → ℕ × ℕ
place s = (s / 64, s - s / 64 * 64)

pub record IsBitmap (ws : List (List Bool)) : Type 0 where
  pub words : length ws ≡ 16
  pub bits : All (λ w. length w ≡ 64) ws

All-get_or :
    (ws : List (List Bool)) (i : ℕ)
    → All (λ w. length w ≡ 64) ws
    → length (get_or ws i (replicate 64 false)) ≡ 64
All-get_or [] i h = refl
All-get_or (w ∷ ws) zero h = h.0
All-get_or (w ∷ ws) (suc i) h = All-get_or ws i h.1

All-set :
    (ws : List (List Bool)) (i : ℕ) (v : List Bool)
    → All (λ w. length w ≡ 64) ws
    → length v ≡ 64
    → All (λ w. length w ≡ 64) (set ws i v)
All-set [] i v h e = tt
All-set (w ∷ ws) zero v h e = (e, h.1)
All-set (w ∷ ws) (suc i) v h e = (h.0, All-set ws i v h.1 e)

pub put_bit-IsBitmap :
    (ws : List (List Bool)) (p : ℕ × ℕ) (v : Bool) → IsBitmap ws → IsBitmap (put_bit ws p v)
unfolding put_bit
put_bit-IsBitmap ws (w, b) v h = record {
  words = length-set ws w _ ∙ h.words;
  bits = All-set ws w _ h.bits (length-set (get_or ws w _) b v ∙ All-get_or ws w h.bits);
}

pub empty-IsBitmap : IsBitmap empty_words
empty-IsBitmap = omega arith

pub get_bit-put_bit_self :
    (ws : List (List Bool)) (s : ℕ) (v : Bool)
    → IsBitmap ws
    → s < 1024
    → get_bit (put_bit ws (place s) v) (place s) ≡ v
unfolding get_bit put_bit
get_bit-put_bit_self ws s v h lt =
    ap (λ w. get_or w (place s).1 false)
      (get_or-set_self ws (place s).0 _ _ (omega (arith, h.words)))
    ∙ get_or-set_self (get_or ws (place s).0 _) (place s).1 v false
        (omega (arith, All-get_or ws (place s).0 h.bits))

get_or-set_other :
    (ws : List (List Bool)) (w b b' : ℕ) (v : Bool)
    → b ≢ b'
    → get_or
        (get_or (set ws w (set (get_or ws w (replicate 64 false)) b v)) w (replicate 64 false))
        b'
        false
      ≡ get_or (get_or ws w (replicate 64 false)) b' false
get_or-set_other [] w b b' v ne = refl
get_or-set_other (x ∷ ws) zero b b' v ne = get_or-set_ne x b b' v false ne
get_or-set_other (x ∷ ws) (suc w) b b' v ne = get_or-set_other ws w b b' v ne

get_bit-put_bit_other :
    (ws : List (List Bool)) (w b w' b' : ℕ) (v : Bool)
    → (w ≡ w' → b ≢ b')
    → get_bit (put_bit ws (w, b) v) (w', b') ≡ get_bit ws (w', b')
unfolding get_bit put_bit
get_bit-put_bit_other ws w b w' b' v ne = elim (ℕ_discrete w w') [
  | no other ↦ ap (λ x. get_or x b' false) (get_or-set_ne ws w w' _ _ other)
  | yes e ↦ rw (← e) (get_or-set_other ws w b b' v (ne e))
]

pub get_bit-put_bit_ne :
    (ws : List (List Bool)) (s t : ℕ) (v : Bool)
    → s ≢ t
    → get_bit (put_bit ws (place s) v) (place t) ≡ get_bit ws (place t)
get_bit-put_bit_ne ws s t v ne =
    get_bit-put_bit_other ws (s / 64) (s - s / 64 * 64) (t / 64) (t - t / 64 * 64) v
      (λ e d. ne (omega arith))

pub get_bit-empty : (p : ℕ × ℕ) → get_bit empty_words p ≡ false
unfolding get_bit
get_bit-empty (w, b) =
    ap (λ x. get_or x b false) (get_or-replicate_self 16 w (replicate 64 false))
    ∙ get_or-replicate_self 64 b false
