-- ===== src/Replay/Safety.antt =====
-- What `can_accept` and `accept` guarantee together, for every stream of counters.
use vlink.Prelude.{
  ℕ, zero, suc, ◌+◌, ◌-◌, ◌≤◌, ◌<◌, ◌≡◌, ◌≢◌, refl, ap, ◌∙◌, true, false, ◌&&◌, ltb, leb, le→ltb,
  lt→ltb, inl, inr, arith, List, [], ◌∷◌, contains, max,
}
use native.Mathlib.Decide.{dec_lt}
use vlink.Prelude.Words.{add64, sub64}
use vlink.Protocol.{reject_after_messages}
use vlink.Replay.{
  NonceFilter, slot, bitmap_index, is_set, set_counter, advance, advance_to, new, can_accept,
  accept, empty_words,
}
use vlink.Replay.Slots.{IsValid}
use vlink.Replay.Advance.{next-advance}
use vlink.Replay.Tracking.{Tracks, blank-Tracks, advance-Tracks, set_counter-Tracks}

pub new-Tracks : Tracks new []
unfolding new contains
new-Tracks = blank-Tracks new [] refl refl (inl refl) (omega arith) (λ i h. absurd (cc))

pub advance_to_step :
    (fuel counter : ℕ) (f : NonceFilter)
    → f.next < counter
    → advance_to (suc fuel) counter f ≡ advance_to fuel counter (advance f)
unfolding advance_to
advance_to_step fuel counter f h = rw (lt→ltb f.next counter h, advance_to)

-- With the distance to a counter of at most REJECT_AFTER_MESSAGES as fuel, the loop of `accept` ends
-- at the counter, and the filter still tracks the log.
pub advance_to-Tracks :
    (fuel counter : ℕ) (f : NonceFilter) (log : List ℕ)
    → f.next + fuel ≡ counter
    → counter ≤ reject_after_messages
    → Tracks f log
    → Tracks (advance_to fuel counter f) log × ((advance_to fuel counter f).next ≡ counter)
unfolding advance_to
advance_to-Tracks zero counter f log e h t = (t, omega arith)
advance_to-Tracks (suc fuel) counter f log e h t =
    rw (advance_to_step fuel counter f (omega arith)) (
      advance_to-Tracks fuel counter (advance f) log
        (omega (arith, next-advance f t.valid (omega arith))) h
        (advance-Tracks f log t (omega arith)))

-- A filter that tracks a log of recorded counters refuses every counter of the log.
pub replay-refused :
    (f : NonceFilter) (log : List ℕ) (counter : ℕ)
    → Tracks f log
    → contains log counter ≡ true
    → can_accept f counter ≡ false
unfolding can_accept
replay-refused f log c t h = elim (dec_lt (c + 1024) f.next) [
  | yes old ↦ ground (arith, t.below c h, t.valid.small)
  | no near ↦
      let marked : is_set f c ≡ true = t.sound c h (omega (arith, t.below c h)) in
      ground (arith, t.below c h, t.valid.small)
]

-- A filter that tracks a log lets through every counter of the window that the log does not hold,
-- other than 1024 and of at most REJECT_AFTER_MESSAGES.
pub fresh-accepted :
    (f : NonceFilter) (log : List ℕ) (counter : ℕ)
    → Tracks f log
    → counter ≢ 1024
    → counter ≤ reject_after_messages
    → f.next < counter + 1024
    → contains log counter ≡ false
    → can_accept f counter ≡ true
unfolding can_accept
fresh-accepted f log c t ne small near h = ground (arith, t.valid.small, t.complete c ne)

near_of_accept :
    (f : NonceFilter) (c : ℕ)
    → IsValid f
    → c ≤ reject_after_messages
    → can_accept f c ≡ true
    → f.next < c + 1024
unfolding can_accept
near_of_accept f c v small h = ground (arith, v.small)

pub counted-Tracks :
    (f : NonceFilter) (log : List ℕ) (n : ℕ) → Tracks f log → Tracks (record f { accepted = n }) log
unfolding is_set bitmap_index slot
counted-Tracks f log n t = record {
  valid = record { shape = t.valid.shape; idx = t.valid.idx; small = t.valid.small };
  below = t.below;
  sound = λ i h r. t.sound i h (record { past = r.past; recent = r.recent });
  complete = λ i ne r h. t.complete i ne (record { past = r.past; recent = r.recent }) h;
  early_idx = t.early_idx;
  early_clean = t.early_clean;
}

pub next-set_counter : (f : NonceFilter) (c : ℕ) → (set_counter f c).next ≡ f.next
unfolding set_counter
next-set_counter f c = refl

abbrev pub counted : NonceFilter → NonceFilter
counted f = record f { accepted = add64 f.accepted 1 }

module _ (f : NonceFilter) (log : List ℕ) (c : ℕ) (t : Tracks f log)
    (small : c ≤ reject_after_messages) where
  accept_inside :
      c < f.next → f.next < c + 1024 → Tracks (accept f c) (c ∷ log) × ((accept f c).next ≡ f.next)
  unfolding accept
  accept_inside h near = rw (lt→ltb c f.next h) (
    set_counter-Tracks (counted f) log (counted-Tracks f log _ t) c (omega arith),
    next-set_counter (counted f) c,
  )

  jumped : NonceFilter
  jumped = record (counted f) { words = empty_words; next_idx = 0; next = add64 c 1 }

  jumped-Tracks : f.next + 1024 ≤ c → Tracks jumped log
  unfolding jumped
  jumped-Tracks h =
      blank-Tracks jumped log refl refl (inr (omega arith)) (omega arith)
        (λ i m. omega (arith, t.below i m))

  accept_far : f.next + 1024 ≤ c → Tracks (accept f c) (c ∷ log) × ((accept f c).next ≡ c + 1)
  unfolding accept jumped
  accept_far h =
      rw (le→ltb c f.next (omega arith), lt→ltb f.next c (omega arith), far)
        (
          set_counter-Tracks jumped log (jumped-Tracks h) c (omega arith),
          next-set_counter jumped c ∙ omega arith,
        )
    where
      far : leb 1024 (sub64 c f.next) ≡ true
      far = ground (arith, small, t.valid.small)

  pub not_far : f.next ≤ c → c < f.next + 1024 → (ltb f.next c && leb 1024 (sub64 c f.next)) ≡ false
  not_far h k = ground (arith, small, t.valid.small)

  -- Within 1024 steps of `next`, `accept` moves the window up to the counter, past it, and marks it.
  pub accept-eq :
      f.next ≤ c
      → c < f.next + 1024
      → accept f c ≡ set_counter (advance (advance_to (c - f.next) c (counted f))) c
  unfolding accept
  accept-eq h k = rw (le→ltb c f.next h, not_far h k)

  pub accept_step :
      f.next ≤ c → c < f.next + 1024 → Tracks (accept f c) (c ∷ log) × ((accept f c).next ≡ c + 1)
  unfolding accept
  accept_step h k =
      let start : f.next + (c - f.next) ≡ c = omega arith in
      let (s, e) =
        advance_to-Tracks (c - f.next) c (counted f) log start small (counted-Tracks f log _ t) in
      let g : NonceFilter = advance_to (c - f.next) c (counted f) in
      let n : (advance g).next ≡ c + 1 =
        next-advance g s.valid (omega (arith, e)) ∙ ap (λ m. m + 1) e in
      rw (le→ltb c f.next h, not_far h k)
        (
          set_counter-Tracks (advance g) log (advance-Tracks g log s (omega (arith, e))) c
              (omega (arith, n)),
          next-set_counter (advance g) c ∙ n,
        )

  -- Where the filter tracks a log and `can_accept` lets a counter of at most REJECT_AFTER_MESSAGES
  -- through, `accept` leaves a filter that tracks the log with that counter, and `next` becomes the
  -- number above the largest one.
  pub accept-Tracks :
      can_accept f c ≡ true
      → Tracks (accept f c) (c ∷ log) × ((accept f c).next ≡ max f.next (c + 1))
  accept-Tracks h = elim (dec_lt c f.next) [
    | yes inside ↦
        let (s, e) = accept_inside inside (near_of_accept f c t.valid small h) in
        (s, omega (arith, e))
    | no outside ↦ elim (dec_lt c (f.next + 1024)) [
      | yes step ↦ let (s, e) = accept_step (omega arith) step in (s, omega (arith, e))
      | no far ↦ let (s, e) = accept_far (omega arith) in (s, omega (arith, e))
    ]
  ]
