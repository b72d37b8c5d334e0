-- ===== src/Bytes/Slices.antt =====
-- Slices of a byte string, and their comparison.
use vlink.Prelude.{
  ℕ, ◌-◌, ◌≡◌, refl, Bool, true, false, ◌&&◌, List, [], ◌∷◌, length, take, drop, leb, ◌==◌, ◌↔◌,
  arith, if◌then◌else◌,
}
use vlink.Outcome.{Outcome, ok, panic}

unfoldable pub bytes_eq : List ℕ → List ℕ → Bool
bytes_eq [] [] = true
bytes_eq [] (y ∷ ys) = false
bytes_eq (x ∷ xs) [] = false
bytes_eq (x ∷ xs) (y ∷ ys) = x == y && bytes_eq xs ys

pub bytes_eq_iff : (xs ys : List ℕ) → (bytes_eq xs ys ≡ true) ↔ (xs ≡ ys)
unfolding bytes_eq
bytes_eq_iff [] [] = (λ _. refl, λ _. refl)
bytes_eq_iff [] (y ∷ ys) = (λ h. cc, λ h. cc)
bytes_eq_iff (x ∷ xs) [] = (λ h. cc, λ h. cc)
bytes_eq_iff (x ∷ xs) (y ∷ ys) =
    (λ h. ground (arith, bytes_eq_iff xs ys), λ h. ground (arith, bytes_eq_iff xs ys))

-- `value[from..to]`, which panics out of range.
abbrev pub slice {κ} : {E : Type κ} → ℕ → ℕ → List ℕ → Outcome E (List ℕ)
slice from to value =
    if leb from to && leb to (length value) then ok (take (to - from) (drop from value)) else panic

-- `value[from..]`
abbrev pub slice_from {κ} : {E : Type κ} → ℕ → List ℕ → Outcome E (List ℕ)
slice_from from value = if leb from (length value) then ok (drop from value) else panic
