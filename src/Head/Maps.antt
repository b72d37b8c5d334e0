-- ===== src/Head/Maps.antt =====
-- The entries of a map whose entries are listed.
use vlink.Prelude.{
  ℕ, none-some, some_inj, true, false, List, [], ◌∷◌, some, ◌≡◌, ◌≢◌, refl, sym, ap, ◌∙◌, inl, inr,
  Bool-cases,
}
use vlink.Bytes.{bytes_eq, bytes_eq_iff}
use vlink.Head.{lookup, change}

pub bytes-ne : (k l : List ℕ) → k ≢ l → bytes_eq k l ≡ false
bytes-ne k l apart = elim (Bool-cases (bytes_eq k l)) [
  | inl same ↦ absurd (apart ((bytes_eq_iff k l).0 same))
  | inr e ↦ e
]

module _ {A : Type 0} where
  lookup-cons_same :
      (j k : List ℕ) (w : A) (entries : List (List ℕ × A))
      → bytes_eq j k ≡ true
      → lookup ((j, w) ∷ entries) k ≡ some w
  unfolding lookup
  lookup-cons_same j k w entries same = rw (same) refl

  lookup-cons_other :
      (j k : List ℕ) (w : A) (entries : List (List ℕ × A))
      → bytes_eq j k ≡ false
      → lookup ((j, w) ∷ entries) k ≡ lookup entries k
  unfolding lookup
  lookup-cons_other j k w entries apart = rw (apart) refl

  module _ (f : A → A) where
    change-cons_same :
        (j k : List ℕ) (w : A) (entries : List (List ℕ × A))
        → bytes_eq j k ≡ true
        → change ((j, w) ∷ entries) k f ≡ (j, f w) ∷ entries
    unfolding change
    change-cons_same j k w entries same = rw (same) refl

    change-cons_other :
        (j k : List ℕ) (w : A) (entries : List (List ℕ × A))
        → bytes_eq j k ≡ false
        → change ((j, w) ∷ entries) k f ≡ (j, w) ∷ change entries k f
    unfolding change
    change-cons_other j k w entries apart = rw (apart) refl

    pub lookup-change_self :
        (entries : List (List ℕ × A)) (k : List ℕ) (v : A)
        → lookup entries k ≡ some v
        → lookup (change entries k f) k ≡ some (f v)
    unfolding lookup
    lookup-change_self [] k v h = none-some h
    lookup-change_self ((j, w) ∷ entries) k v h = elim (Bool-cases (bytes_eq j k)) [
      | inl same ↦
          ap (λ es. lookup es k) (change-cons_same j k w entries same)
          ∙ lookup-cons_same j k (f w) entries same
          ∙ ap (λ x. some (f x)) (some_inj (sym (lookup-cons_same j k w entries same) ∙ h))
      | inr apart ↦
          ap (λ es. lookup es k) (change-cons_other j k w entries apart)
          ∙ lookup-cons_other j k w (change entries k f) apart
          ∙ lookup-change_self entries k v (sym (lookup-cons_other j k w entries apart) ∙ h)
    ]

    pub lookup-change_other :
        (entries : List (List ℕ × A)) (k l : List ℕ)
        → l ≢ k
        → lookup (change entries k f) l ≡ lookup entries l
    unfolding lookup change
    lookup-change_other [] k l apart = refl
    lookup-change_other ((j, w) ∷ entries) k l apart = elim (Bool-cases (bytes_eq j k)) [
      | inl same ↦
          let other = bytes-ne j l (λ e. apart (sym e ∙ (bytes_eq_iff j k).0 same)) in
          ap (λ es. lookup es l) (change-cons_same j k w entries same)
          ∙ lookup-cons_other j l (f w) entries other
          ∙ sym (lookup-cons_other j l w entries other)
      | inr differs ↦
          ap (λ es. lookup es l) (change-cons_other j k w entries differs)
          ∙ elim (Bool-cases (bytes_eq j l)) [
            | inl mine ↦
                lookup-cons_same j l w (change entries k f) mine
                ∙ sym (lookup-cons_same j l w entries mine)
            | inr other ↦
                lookup-cons_other j l w (change entries k f) other
                ∙ lookup-change_other entries k l apart
                ∙ sym (lookup-cons_other j l w entries other)
          ]
    ]
