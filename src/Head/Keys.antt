-- ===== src/Head/Keys.antt =====
-- The key of a connection between two peers: it stands for the pair, in either order.
use vlink.Prelude.{
  ℕ, true, false, List, [], ◌∷◌, ◌++◌, length, take, drop, ◌≡◌, ◌↔◌, ◌⊎◌, refl, sym, ap, ap₂, ◌∙◌,
  inl, inr, Bool-cases, take-append_len, drop-append_len, arith,
}
use vlink.Head.Requests.{text_lt, union_pub_key}

-- Of two texts one is smaller, or they are equal.
text_lt-asym : (a b : List ℕ) → text_lt a b ≡ true → text_lt b a ≡ false
unfolding text_lt
text_lt-asym [] [] h = refl
text_lt-asym [] (y ∷ b) h = refl
text_lt-asym (x ∷ a) [] h = cc
text_lt-asym (x ∷ a) (y ∷ b) h = ground (arith, text_lt-asym a b)

text_lt-total : (a b : List ℕ) → text_lt a b ≡ false → text_lt b a ≡ false → a ≡ b
unfolding text_lt
text_lt-total [] [] h k = refl
text_lt-total [] (y ∷ b) h k = cc
text_lt-total (x ∷ a) [] h k = cc
text_lt-total (x ∷ a) (y ∷ b) h k =
    let same : x ≡ y = ground arith in
    let rest : a ≡ b = text_lt-total a b (ground arith) (ground arith) in ap₂ ◌∷◌ same rest

append_split : (a b c d : List ℕ) → length a ≡ length c → a ++ b ≡ c ++ d → (a ≡ c) × (b ≡ d)
append_split a b c d same h = (
  sym (take-append_len (length a) a b refl)
      ∙ ap (take (length a)) h
      ∙ take-append_len (length a) c d (sym same),
  sym (drop-append_len (length a) a b refl)
      ∙ ap (drop (length a)) h
      ∙ drop-append_len (length a) c d (sym same),
)

-- The key is the smaller text before the larger one.
union-lt : (a b : List ℕ) → text_lt a b ≡ true → (union_pub_key a b).0 ≡ a ++ b
unfolding union_pub_key
union-lt a b h = rw (h) refl

union-ge : (a b : List ℕ) → text_lt a b ≡ false → (union_pub_key a b).0 ≡ b ++ a
unfolding union_pub_key
union-ge a b h = rw (h) refl

union-cases : (a b : List ℕ) → ((union_pub_key a b).0 ≡ a ++ b) ⊎ ((union_pub_key a b).0 ≡ b ++ a)
union-cases a b = elim (Bool-cases (text_lt a b)) [
  | inl h ↦ inl (union-lt a b h)
  | inr h ↦ inr (union-ge a b h)
]

union-swap : (a b : List ℕ) → (union_pub_key a b).0 ≡ (union_pub_key b a).0
union-swap a b = elim (Bool-cases (text_lt a b)) [
  | inl h ↦ union-lt a b h ∙ sym (union-ge b a (text_lt-asym a b h))
  | inr h ↦ elim (Bool-cases (text_lt b a)) [
    | inl k ↦ union-ge a b h ∙ sym (union-lt b a k)
    | inr k ↦ let same = text_lt-total a b h k in ap₂ (λ x y. (union_pub_key x y).0) same (sym same)
  ]
]

-- For four texts of one length, two pairs have the same connection key exactly where they are the
-- same pair, in this order or the other.
pub union_pub_key_iff :
    (a b c d : List ℕ)
    → length b ≡ length a
    → length c ≡ length a
    → length d ≡ length a
    → ((union_pub_key a b).0 ≡ (union_pub_key c d).0) ↔ (((a ≡ c) × (b ≡ d)) ⊎ ((a ≡ d) × (b ≡ c)))
union_pub_key_iff a b c d lb lc ld = (
  λ h. elim (union-cases a b) [
    | inl e ↦ elim (union-cases c d) [
      | inl f ↦ inl (append_split a b c d (sym lc) (sym e ∙ h ∙ f))
      | inr f ↦ inr (append_split a b d c (sym ld) (sym e ∙ h ∙ f))
    ]
    | inr e ↦ elim (union-cases c d) [
      | inl f ↦ let s = append_split b a c d (lb ∙ sym lc) (sym e ∙ h ∙ f) in inr (s.1, s.0)
      | inr f ↦ let s = append_split b a d c (lb ∙ sym ld) (sym e ∙ h ∙ f) in inl (s.1, s.0)
    ]
  ],
  λ same. elim same [
    | inl s ↦ ap₂ (λ x y. (union_pub_key x y).0) s.0 s.1
    | inr s ↦ ap₂ (λ x y. (union_pub_key x y).0) s.0 s.1 ∙ union-swap d c
  ],
)
