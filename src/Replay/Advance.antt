-- ===== src/Replay/Advance.antt =====
-- One step of the window, `NonceFilter::advance`, and the loop of `accept`.
use vlink.Prelude.{
  ℕ, ◌+◌, ◌-◌, ◌%◌, ◌≤◌, ◌<◌, ◌≡◌, ap, ◌∙◌, sym, false, le→ltb, lt→ltb, ◌⊎◌, inl, inr, arith,
}
use vlink.Protocol.{reject_after_messages}
use vlink.Replay.{NonceFilter, slot, bitmap_index, get_bit, put_bit, is_set, unset_counter, advance}
use vlink.Replay.Bitmap.{place, put_bit-IsBitmap, get_bit-put_bit_self, get_bit-put_bit_ne}
use vlink.Replay.Slots.{IsValid, InReach, slot-eq, slot-lt, slot-ne, is_set-slot}

module _ (f : NonceFilter) (v : IsValid f) (room : f.next ≤ reject_after_messages) where
  pub next-advance : (advance f).next ≡ f.next + 1
  unfolding advance unset_counter
  next-advance = ground (arith, v.idx, room)

  pub next_idx-advance : (advance f).next_idx ≡ (f.next_idx + 1) % 1024
  unfolding advance unset_counter
  next_idx-advance = ground arith

  pub words-advance_early : f.next ≤ 1024 → (advance f).words ≡ f.words
  unfolding advance
  words-advance_early h = rw (le→ltb 1024 f.next h)

  pub words-advance_late :
      1024 < f.next → (advance f).words ≡ put_bit f.words (place (slot f (f.next - 1024))) false
  unfolding advance unset_counter bitmap_index slot
  words-advance_late h =
      rw (lt→ltb 1024 f.next h)
        (ap (λ k. put_bit f.words (place (slot f k)) false) (omega (arith, v.small, room)))

  early_or_late : (f.next ≤ 1024) ⊎ (1024 < f.next)
  early_or_late = omega arith

  pub advance-IsValid : IsValid (advance f)
  advance-IsValid = record {
    shape = elim early_or_late [
      | inl early ↦ rw (words-advance_early early) v.shape
      | inr late ↦ rw (words-advance_late late) (put_bit-IsBitmap f.words _ false v.shape)
    ];
    idx = omega (arith, next_idx-advance);
    small = omega (arith, next-advance, room);
  }

  -- A counter that stays in reach keeps its slot.
  slot-advance : (i : ℕ) → InReach f i → InReach (advance f) i → slot (advance f) i ≡ slot f i
  slot-advance i r q = omega (
    arith,
    slot-eq f i v r,
    slot-eq (advance f) i advance-IsValid q,
    next-advance,
    next_idx-advance,
    v.idx,
    r.past,
    r.recent,
    q.recent,
  )

  pub advance-InReach : (i : ℕ) → i ≤ f.next → f.next < i + 1024 → InReach (advance f) i
  advance-InReach i h k = omega (arith, next-advance)

  -- The step forgets nothing about a counter that stays in reach.
  pub is_set-advance_old :
      (i : ℕ) → i < f.next → f.next < i + 1024 → is_set (advance f) i ≡ is_set f i
  is_set-advance_old i h k =
      let r : InReach f i = omega arith in
      let q : InReach (advance f) i = advance-InReach i (omega arith) k in
      is_set-slot (advance f) i
      ∙ ap (λ s. get_bit (advance f).words (place s)) (slot-advance i r q)
      ∙ elim early_or_late [
        | inl early ↦ rw (words-advance_early early) (sym (is_set-slot f i))
        | inr late ↦ rw (words-advance_late late) (
            get_bit-put_bit_ne f.words (slot f (f.next - 1024)) (slot f i) false
              (slot-ne f (f.next - 1024) i v (omega arith) r (omega arith))
            ∙ sym (is_set-slot f i))
      ]

  -- The slot of the counter that comes into reach is the one of the counter that falls out.
  slot-advance_new : slot (advance f) f.next ≡ f.next_idx
  slot-advance_new = omega (
    arith,
    slot-eq (advance f) f.next advance-IsValid (advance-InReach f.next (omega arith) (omega arith)),
    next-advance,
    next_idx-advance,
    v.idx,
  )

  pub is_set-advance_new_early :
      f.next ≤ 1024 → is_set (advance f) f.next ≡ get_bit f.words (place f.next_idx)
  is_set-advance_new_early h =
      is_set-slot (advance f) f.next
      ∙ ap (λ s. get_bit (advance f).words (place s)) slot-advance_new
      ∙ ap (λ ws. get_bit ws (place f.next_idx)) (words-advance_early h)

  pub is_set-advance_new_late : 1024 < f.next → is_set (advance f) f.next ≡ false
  is_set-advance_new_late h =
      let out : InReach f (f.next - 1024) = omega arith in
      let e : slot f (f.next - 1024) ≡ f.next_idx =
        omega (arith, slot-eq f (f.next - 1024) v out, v.idx) in
      is_set-slot (advance f) f.next
      ∙ ap (λ s. get_bit (advance f).words (place s)) (slot-advance_new ∙ sym e)
      ∙ ap (λ ws. get_bit ws (place (slot f (f.next - 1024)))) (words-advance_late h)
      ∙ get_bit-put_bit_self f.words (slot f (f.next - 1024)) false v.shape
          (slot-lt f (f.next - 1024) v out)
