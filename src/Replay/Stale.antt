-- ===== src/Replay/Stale.antt =====
-- The counter whose slot `advance` does not clear. The source clears a slot when `next` is above
-- 1024; at 1024 itself the slot of counter 0 becomes the slot of counter 1024 with its bit.
use vlink.Prelude.{
  ℕ, zero, suc, ◌+◌, ◌-◌, ◌≤◌, ◌<◌, ◌≡◌, ap, ◌∙◌, sym, true, false, inl, inr, arith, List, ◌∷◌,
  contains, contains-cons_ne, Bool-cases,
}
use vlink.Protocol.{reject_after_messages}
use vlink.Replay.{
  NonceFilter, slot, get_bit, is_set, set_counter, advance, advance_to, can_accept, accept,
}
use vlink.Replay.Bitmap.{place}
use vlink.Replay.Slots.{IsValid, InReach, slot-eq, is_set-slot, is_set-set_counter_ne}
use vlink.Replay.Advance.{
  advance-IsValid, next-advance, is_set-advance_old, is_set-advance_new_early,
}
use vlink.Replay.Tracking.{Tracks}
use vlink.Replay.Safety.{
  advance_to_step, advance_to-Tracks, counted-Tracks, counted, accept-eq, accept_step,
  next-set_counter,
}

-- A marked counter stays marked while it stays in reach.
is_set-advance_to :
    (fuel counter : ℕ) (f : NonceFilter) (i : ℕ)
    → IsValid f
    → f.next + fuel ≡ counter
    → counter ≤ reject_after_messages
    → i < f.next
    → counter < i + 1024
    → is_set f i ≡ true
    → is_set (advance_to fuel counter f) i ≡ true
unfolding advance_to
is_set-advance_to zero counter f i v e h lo hi m = m
is_set-advance_to (suc fuel) counter f i v e h lo hi m =
    let n : (advance f).next ≡ f.next + 1 = next-advance f v (omega arith) in
    rw (advance_to_step fuel counter f (omega arith)) (
      is_set-advance_to fuel counter (advance f) i (advance-IsValid f v (omega arith))
        (omega (arith, n)) h (omega (arith, n)) hi
        (is_set-advance_old f v (omega arith) i lo (omega arith) ∙ m))

module _ (f : NonceFilter) (log : List ℕ) (t : Tracks f log) (edge : f.next ≡ 1024) where
  -- Counter 1024 takes over the bit of counter 0.
  marked_by_zero : contains log 0 ≡ true → is_set (advance f) 1024 ≡ true
  marked_by_zero h =
      let reach : InReach f 0 = omega arith in
      let idx : f.next_idx ≡ 0 = omega (arith, t.early_idx (omega arith)) in
      let s : slot f 0 ≡ f.next_idx = omega (arith, slot-eq f 0 t.valid reach) in
      ap (is_set (advance f)) (sym edge)
      ∙ is_set-advance_new_early f t.valid (omega arith) (omega arith)
      ∙ ap (λ k. get_bit f.words (place k)) (sym s)
      ∙ sym (is_set-slot f 0)
      ∙ t.sound 0 h reach

refused_of_set : (f : NonceFilter) (c : ℕ) → c < f.next → is_set f c ≡ true → can_accept f c ≡ false
unfolding can_accept
refused_of_set f c h m = ground arith

-- Where a filter tracks a log that holds 0 and stands at 1024, and the next counter lies above 1024
-- and below 2047: after it was accepted the filter refuses 1024, though 1024 was never recorded and
-- the window still reaches it.
pub stale-1024 :
    (f : NonceFilter) (log : List ℕ) (counter : ℕ)
    → Tracks f log
    → f.next ≡ 1024
    → contains log 0 ≡ true
    → 1024 < counter
    → counter < 2047
    → (can_accept (accept f counter) 1024 ≡ false)
      × (contains (counter ∷ log) 1024 ≡ false)
      × ((accept f counter).next < 1024 + 1024)
stale-1024 f log c t edge zero_seen lo hi =
    let small : c ≤ reject_after_messages = omega arith in
    (
      ap (λ g. can_accept g 1024) (accept-eq f log c t small (omega arith) (omega arith))
          ∙ refused_of_set _ 1024 (omega (arith, still_next)) still_set,
      contains-cons_ne 1024 c log (λ e. omega arith) ∙ unseen,
      omega (arith, (accept_step f log c t small (omega arith) (omega arith)).1),
    )
  where
    start : NonceFilter
    start = counted f

    st : Tracks start log
    st = counted-Tracks f log _ t

    looped : NonceFilter
    looped = advance_to (c - f.next) c start

    loop : Tracks looped log × (looped.next ≡ c)
    loop = advance_to-Tracks (c - f.next) c start log (omega arith) (omega arith) st

    split : looped ≡ advance_to (c - 1025) c (advance start)
    split =
        ap (λ k. advance_to k c start) (omega arith)
        ∙ advance_to_step (c - 1025) c start (omega arith)

    first : (advance start).next ≡ 1025
    first = next-advance start st.valid (omega arith) ∙ omega arith

    held : is_set looped 1024 ≡ true
    held =
        ap (λ g. is_set g 1024) split
        ∙ is_set-advance_to (c - 1025) c (advance start) 1024
            (advance-IsValid start st.valid (omega arith)) (omega (arith, first)) (omega arith)
            (omega (arith, first)) (omega arith) (marked_by_zero start log st edge zero_seen)

    last : (advance looped).next ≡ c + 1
    last = next-advance looped loop.0.valid (omega (arith, loop.1)) ∙ ap (λ m. m + 1) loop.1

    still_next : (set_counter (advance looped) c).next ≡ c + 1
    still_next = next-set_counter (advance looped) c ∙ last

    still_set : is_set (set_counter (advance looped) c) 1024 ≡ true
    still_set =
        is_set-set_counter_ne (advance looped) c
          (advance-IsValid looped loop.0.valid (omega (arith, loop.1))) (omega (arith, last)) 1024
          (omega (arith, last)) (λ e. omega arith)
        ∙ is_set-advance_old looped loop.0.valid (omega (arith, loop.1)) 1024
            (omega (arith, loop.1)) (omega (arith, loop.1))
        ∙ held

    unseen : contains log 1024 ≡ false
    unseen = elim (Bool-cases (contains log 1024)) [
      | inl seen ↦ absurd (omega (arith, t.below 1024 seen))
      | inr no_entry ↦ no_entry
    ]
