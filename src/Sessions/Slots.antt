-- ===== src/Sessions/Slots.antt =====
-- The slots of a peer and the registry: exactly the sessions that stand in a slot are registered
-- for the peer, and the operations never panic.
use vlink.Prelude.{
  none-some, ℕ, ◌+◌, ◌≤◌, true, Option, none, some, ◌==◌, if◌then◌else◌, ◌≡◌, refl, sym, ap, ◌∙◌,
  List, [], ◌∷◌, ◌++◌, Bool-cases, inl, inr, ==_iff, ==_refl, arith,
}
use vlink.Outcome.{Outcome, ok, ◌>>=◌}
use vlink.Protocol.{Error}
use vlink.Sessions.{Session, SessionIndex, ActiveSession, insert, deactivate, same_index}
use vlink.Sessions.Registry.{
  IsConsistent, removed, remove-found, insert-IsConsistent, removed-IsConsistent,
}

-- The session of a slot, where it stands under the index `i`.
abbrev pub at : Option Session → ℕ → Option Session
at none i = none
at (some s) i = if i == s.sender_index then some s else none

abbrev pub or_else : Option Session → Option Session → Option Session
or_else none o = o
or_else (some s) o = some s

abbrev pub size : Option Session → ℕ
size none = 0
size (some s) = 1

none_of_size : (o : Option Session) → size o ≡ 0 → o ≡ none
none_of_size none h = refl
none_of_size (some s) h = ground (arith, h)

module _ (rest : ℕ → Option Session) where
  -- What the slots hold under an index, and the others' sessions after them.
  abbrev pub first : List (Option Session) → ℕ → Option Session
  first [] i = rest i
  first (o ∷ os) i = or_else (at o i) (first os i)

  abbrev pub count : List (Option Session) → ℕ → ℕ
  count [] i = size (rest i)
  count (o ∷ os) i = size (at o i) + count os i

  -- The registry holds these slots' sessions and the others', under distinct indexes.
  pub record IsRegistry (r : SessionIndex) (os : List (Option Session)) : Type 0 where
    pub consistent : IsConsistent r
    pub found : (i : ℕ) → r.indexes i ≡ first os i
    pub apart : (i : ℕ) → count os i ≤ 1

  abbrev pub IsAlike : List (Option Session) → List (Option Session) → Type 0
  IsAlike os ps = (i : ℕ) → (count os i ≡ count ps i) × (count os i ≤ 1 → first os i ≡ first ps i)

  or_else_swap :
      (x y z : Option Session) (n : ℕ)
      → size x + (size y + n) ≤ 1
      → or_else x (or_else y z) ≡ or_else y (or_else x z)
  or_else_swap none y z n h = refl
  or_else_swap (some s) none z n h = refl
  or_else_swap (some s) (some t) z n h = ground (arith, h)

  pub IsAlike-swap :
      (o p : Option Session) (os : List (Option Session)) → IsAlike (o ∷ p ∷ os) (p ∷ o ∷ os)
  IsAlike-swap o p os i =
      (omega arith, λ h. or_else_swap (at o i) (at p i) (first os i) (count os i) h)

  pub IsAlike-cons :
      (o : Option Session) (os ps : List (Option Session))
      → IsAlike os ps
      → IsAlike (o ∷ os) (o ∷ ps)
  IsAlike-cons o os ps h i =
      (ap (λ n. size (at o i) + n) (h i).0, λ k. ap (or_else (at o i)) ((h i).1 (omega (arith, k))))

  pub reorder :
      (r : SessionIndex) (os ps : List (Option Session))
      → IsAlike os ps
      → IsRegistry r os
      → IsRegistry r ps
  reorder r os ps same h = record {
    consistent = h.consistent;
    found = λ i. h.found i ∙ (same i).1 (h.apart i);
    apart = λ i. omega (arith, (same i).0, h.apart i);
  }

  pub IsAlike-trans :
      (os ps qs : List (Option Session)) → IsAlike os ps → IsAlike ps qs → IsAlike os qs
  IsAlike-trans os ps qs h k i =
      ((h i).0 ∙ (k i).0, λ one. (h i).1 one ∙ (k i).1 (omega (arith, one, (h i).0)))

  pub IsAlike-sym : (os ps : List (Option Session)) → IsAlike os ps → IsAlike ps os
  IsAlike-sym os ps h i = (sym (h i).0, λ one. sym ((h i).1 (omega (arith, one, (h i).0))))

  pub IsAlike-move :
      (o : Option Session) (os ps : List (Option Session)) → IsAlike (o ∷ os ++ ps) (os ++ o ∷ ps)
  IsAlike-move o [] ps i = (refl, λ one. refl)
  IsAlike-move o (p ∷ os) ps i =
      IsAlike-trans (o ∷ p ∷ os ++ ps) (p ∷ o ∷ os ++ ps) (p ∷ os ++ o ∷ ps)
        (IsAlike-swap o p (os ++ ps))
        (IsAlike-cons p (o ∷ os ++ ps) (os ++ o ∷ ps) (IsAlike-move o os ps)) i

  -- An empty slot counts for nothing.
  pub IsAlike-empty : (os ps : List (Option Session)) → IsAlike (os ++ none ∷ ps) (os ++ ps)
  IsAlike-empty [] ps i = (omega arith, λ one. refl)
  IsAlike-empty (o ∷ os) ps i = IsAlike-cons o (os ++ none ∷ ps) (os ++ ps) (IsAlike-empty os ps) i

  -- A session that is in no slot takes none of the indexes in use.
  pub count-first : (os : List (Option Session)) (i : ℕ) → first os i ≡ none → count os i ≡ 0
  count-first [] i h = ap size h
  count-first (none ∷ os) i h = omega (arith, count-first os i h)
  count-first (some s ∷ os) i h = elim (Bool-cases (i == s.sender_index)) [
    | inl e ↦ none-some (sym h ∙ ap (λ b. or_else (if b then some s else none) (first os i)) e)
    | inr ne ↦
        let other = sym (ap (λ b. or_else (if b then some s else none) (first os i)) ne) ∙ h in
        rw (ne) (omega (arith, count-first os i other))
  ]

  first-count : (os : List (Option Session)) (i : ℕ) → count os i ≡ 0 → first os i ≡ none
  first-count [] i h = none_of_size (rest i) h
  first-count (o ∷ os) i h =
      rw (none_of_size (at o i) (omega (arith, h))) (first-count os i (omega (arith, h)))

  -- `activate` of a session under a free index.
  pub registered :
      (r : SessionIndex) (os : List (Option Session)) (s : Session)
      → IsRegistry r os
      → count os s.sender_index ≡ 0
      → IsRegistry (insert r s) (some s ∷ os)
  unfolding insert
  registered r os s h free = record {
    consistent = insert-IsConsistent r s h.consistent;
    found = λ i. elim (Bool-cases (i == s.sender_index)) [
      | inl e ↦ rw (e) refl
      | inr ne ↦ rw (ne) (h.found i)
    ];
    apart = λ i. elim (Bool-cases (i == s.sender_index)) [
      | inl e ↦
          let none_there = ap (count os) ((==_iff i s.sender_index).0 e) ∙ free in
          rw (e) (omega (arith, none_there))
      | inr ne ↦ rw (ne) (omega (arith, h.apart i))
    ];
  }

  removed-IsRegistry :
      (r : SessionIndex) (s : Session) (os : List (Option Session))
      → IsRegistry r (some s ∷ os)
      → IsRegistry (removed r s) os
  removed-IsRegistry r s os h = record {
    consistent = removed-IsConsistent r s h.consistent;
    found = λ i. elim (Bool-cases (i == s.sender_index)) [
      | inl e ↦
          let one = sym (ap (λ b. size (if b then some s else none) + count os i) e) in
          rw (e) (sym (first-count os i (omega (arith, one, h.apart i))))
      | inr ne ↦
          rw (ne) (h.found i ∙ ap (λ b. or_else (if b then some s else none) (first os i)) ne)
    ];
    apart = λ i. omega (arith, h.apart i);
  }

  found_there :
      (r : SessionIndex) (s : Session) (os : List (Option Session))
      → IsRegistry r (some s ∷ os)
      → r.indexes s.sender_index ≡ some s
  found_there r s os h =
      h.found s.sender_index
      ∙ ap (λ b. or_else (if b then some s else none) (first os s.sender_index))
          (==_refl s.sender_index)

  -- `deactivate` of what a slot held.
  pub deactivated :
      (a : ActiveSession) (o : Option Session) (os : List (Option Session))
      → IsRegistry a.index (o ∷ os)
      → (r : SessionIndex) × (deactivate a o ≡ ok (record a { index = r })) × IsRegistry r os
  unfolding deactivate
  deactivated a none os h = (
    a.index,
    refl,
    record { consistent = h.consistent; found = h.found; apart = λ i. omega (arith, h.apart i) },
  )
  deactivated a (some s) os h = (
    removed a.index s,
    ap {B = Outcome Error ActiveSession} (λ o. o >>= λ r. ok (record a { index = r.0 }))
        (remove-found a.index s s h.consistent (found_there a.index s os h)),
    removed-IsRegistry a.index s os h,
  )

  -- The one slot that holds the index of `s`.
  pub count_same :
      (o : Option Session) (os : List (Option Session)) (s : Session)
      → count (o ∷ os) s.sender_index ≤ 1
      → same_index o s ≡ true
      → count os s.sender_index ≡ 0
  unfolding same_index
  count_same none os s one h = cc
  count_same (some t) os s one h =
      let b =
        (==_iff s.sender_index t.sender_index).1
          (sym ((==_iff t.sender_index s.sender_index).0 h)) in
      let held = sym (ap (λ b. size (if b then some t else none) + count os s.sender_index) b) in
      omega (arith, one, held)
