-- ===== src/Replay/Tracking.antt =====
-- The bitmap holds the counters accepted so far: preserved by each step of `accept`.
use vlink.Prelude.{
  ℕ, ◌+◌, ◌%◌, ◌≤◌, ◌<◌, ◌≡◌, ◌≢◌, ap, ◌∙◌, sym, Bool, true, false, ◌⊎◌, inl, inr, arith, List, ◌∷◌,
  contains, contains-cons_self, contains-cons_ne,
}
use native.Mathlib.Decide.{ℕ_discrete}
use vlink.Protocol.{reject_after_messages}
use vlink.Replay.{
  NonceFilter, slot, bitmap_index, get_bit, is_set, set_counter, advance, empty_words,
}
use vlink.Replay.Bitmap.{place, get_bit-put_bit_ne, get_bit-empty, empty-IsBitmap}
use vlink.Replay.Slots.{
  IsValid, InReach, slot-eq, set_counter-IsValid, is_set-set_counter_self, is_set-set_counter_ne,
}
use vlink.Replay.Advance.{
  advance-IsValid, next-advance, next_idx-advance, words-advance_early, is_set-advance_old,
  is_set-advance_new_early, is_set-advance_new_late,
}

-- `log` holds the counters accepted so far. The slot of counter 1024 may hold the bit of counter 0.
pub record Tracks (f : NonceFilter) (log : List ℕ) : Type 0 where
  pub valid : IsValid f
  pub below : (i : ℕ) → contains log i ≡ true → i < f.next
  pub sound : (i : ℕ) → contains log i ≡ true → InReach f i → is_set f i ≡ true
  pub complete : (i : ℕ) → i ≢ 1024 → InReach f i → is_set f i ≡ true → contains log i ≡ true
  pub early_idx : f.next ≤ 1024 → f.next_idx ≡ f.next % 1024
  pub early_clean :
      f.next ≤ 1024 → (s : ℕ) → f.next ≤ s → s < 1024 → get_bit f.words (place s) ≡ false

clash : {b : Bool} → b ≡ false → b ≡ true → ⊥
clash p q = cc

blank-is_set : (f : NonceFilter) → f.words ≡ empty_words → (i : ℕ) → is_set f i ≡ false
unfolding is_set bitmap_index
blank-is_set f e i = rw e (get_bit-empty (bitmap_index f i))

-- A filter with an empty bitmap tracks every log of counters out of its reach.
pub blank-Tracks :
    (f : NonceFilter) (log : List ℕ)
    → f.words ≡ empty_words
    → f.next_idx ≡ 0
    → (f.next ≡ 0) ⊎ (1024 < f.next)
    → f.next ≤ reject_after_messages + 1
    → ((i : ℕ) → contains log i ≡ true → i + 1024 < f.next)
    → Tracks f log
blank-Tracks f log e z n small far = record {
  valid = record { shape = rw e empty-IsBitmap; idx = omega arith; small = small };
  below = λ i h. omega (arith, far i h);
  sound = λ i h r. absurd (omega (arith, far i h, r.recent));
  complete = λ i ne r h. absurd (clash (blank-is_set f e i) h);
  early_idx = λ h. omega arith;
  early_clean = λ h s lo hi. rw e (get_bit-empty (place s));
}

module _ (f : NonceFilter) (log : List ℕ) (t : Tracks f log) where
  -- The counter that comes into reach is not marked.
  unmarked : f.next ≤ reject_after_messages → f.next ≢ 1024 → is_set (advance f) f.next ≡ false
  unmarked room ne = elim early_or_late [
    | inl early ↦
        let idx : f.next_idx ≡ f.next = omega (arith, t.early_idx (omega arith)) in
        is_set-advance_new_early f t.valid room (omega arith)
        ∙ ap (λ s. get_bit f.words (place s)) idx
        ∙ t.early_clean (omega arith) f.next (omega arith) early
    | inr late ↦ is_set-advance_new_late f t.valid room late
  ]
    where
      early_or_late : (f.next < 1024) ⊎ (1024 < f.next)
      early_or_late = omega arith

  complete-advance :
      f.next ≤ reject_after_messages
      → (i : ℕ) → i ≢ 1024
      → InReach (advance f) i
      → is_set (advance f) i ≡ true
      → contains log i ≡ true
  complete-advance room i ne r h =
      let n : (advance f).next ≡ f.next + 1 = next-advance f t.valid room in
      elim (ℕ_discrete i f.next) [
        | yes e ↦ absurd (clash (ap (is_set (advance f)) e ∙ unmarked room (λ d. ne (e ∙ d))) h)
        | no other ↦
            let old : i < f.next = omega (arith, r.past) in
            let near : f.next < i + 1024 = omega (arith, r.recent) in
            t.complete i ne (omega arith) (sym (is_set-advance_old f t.valid room i old near) ∙ h)
      ]

  pub advance-Tracks : f.next ≤ reject_after_messages → Tracks (advance f) log
  advance-Tracks room =
      let n : (advance f).next ≡ f.next + 1 = next-advance f t.valid room in
      record {
        valid = advance-IsValid f t.valid room;
        below = λ i h. omega (arith, t.below i h);
        sound = λ i h r.
            is_set-advance_old f t.valid room i (t.below i h) (omega (arith, r.recent))
            ∙ t.sound i h (omega (arith, t.below i h, r.recent));
        complete = complete-advance room;
        early_idx = λ h. omega (arith, next_idx-advance f t.valid room, t.early_idx (omega arith));
        early_clean = λ h s lo hi.
            ap (λ ws. get_bit ws (place s)) (words-advance_early f t.valid room (omega arith))
            ∙ t.early_clean (omega arith) s (omega arith) hi;
      }

  module _ (c : ℕ) (r : InReach f c) where
    sound-set :
        (i : ℕ) → contains (c ∷ log) i ≡ true → InReach f i → is_set (set_counter f c) i ≡ true
    sound-set i h q = elim (ℕ_discrete c i) [
      | yes e ↦ rw (← e) (is_set-set_counter_self f c t.valid r)
      | no ne ↦
          is_set-set_counter_ne f c t.valid r i q ne
          ∙ t.sound i (sym (contains-cons_ne i c log ne) ∙ h) q
    ]

    complete-set :
        (i : ℕ)
        → i ≢ 1024
        → InReach f i
        → is_set (set_counter f c) i ≡ true
        → contains (c ∷ log) i ≡ true
    complete-set i far q h = elim (ℕ_discrete c i) [
      | yes e ↦ rw e (contains-cons_self i log)
      | no ne ↦
          contains-cons_ne i c log ne
          ∙ t.complete i far q (sym (is_set-set_counter_ne f c t.valid r i q ne) ∙ h)
    ]

    below-set : (i : ℕ) → contains (c ∷ log) i ≡ true → i < f.next
    below-set i h = elim (ℕ_discrete c i) [
      | yes e ↦ omega (arith, r.past)
      | no ne ↦ t.below i (sym (contains-cons_ne i c log ne) ∙ h)
    ]

    clean-set :
        f.next ≤ 1024
        → (s : ℕ) → f.next ≤ s
        → s < 1024
        → get_bit (set_counter f c).words (place s) ≡ false
    unfolding set_counter bitmap_index slot
    clean-set h s lo hi =
        get_bit-put_bit_ne f.words (slot f c) s true
          (λ e. absurd (omega (arith, slot-eq f c t.valid r, t.early_idx h, r.past, e)))
        ∙ t.early_clean h s lo hi

    pub set_counter-Tracks : Tracks (set_counter f c) (c ∷ log)
    unfolding set_counter
    set_counter-Tracks = record {
      valid = set_counter-IsValid f c t.valid r;
      below = below-set;
      sound = λ i h q. sound-set i h (omega (arith, q.past, q.recent));
      complete = λ i ne q. complete-set i ne (omega (arith, q.past, q.recent));
      early_idx = t.early_idx;
      early_clean = clean-set;
    }
