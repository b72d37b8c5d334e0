-- ===== src/Replay/Slots.antt =====
-- Which slot stands for which counter, and what the operations do to the slots.
use vlink.Prelude.{ℕ, ◌+◌, ◌-◌, ◌%◌, ◌≤◌, ◌<◌, ◌≡◌, ◌≢◌, refl, true, arith}
use vlink.Protocol.{reject_after_messages}
use vlink.Replay.{NonceFilter, slot, bitmap_index, get_bit, is_set, set_counter}
use vlink.Replay.Bitmap.{
  IsBitmap, place, put_bit-IsBitmap, get_bit-put_bit_self, get_bit-put_bit_ne,
}

-- What the filter's arithmetic relies on.
pub record IsValid (f : NonceFilter) : Type 0 where
  pub shape : IsBitmap f.words
  pub idx : f.next_idx < 1024
  pub small : f.next ≤ reject_after_messages + 1

-- A counter that the bitmap has a slot for.
pub record InReach (f : NonceFilter) (i : ℕ) : Type 0 where
  pub past : i < f.next
  pub recent : f.next ≤ i + 1024

pub slot-eq :
    (f : NonceFilter) (i : ℕ)
    → IsValid f
    → InReach f i
    → slot f i ≡ (f.next_idx + 1024 - (f.next - i)) % 1024
unfolding slot
slot-eq f i v r = ground (arith, v.idx, v.small, r.past, r.recent)

pub slot-lt : (f : NonceFilter) (i : ℕ) → IsValid f → InReach f i → slot f i < 1024
slot-lt f i v r = omega (arith, slot-eq f i v r)

-- Different counters have different slots.
pub slot-ne :
    (f : NonceFilter) (i j : ℕ)
    → IsValid f
    → InReach f i
    → InReach f j
    → i ≢ j
    → slot f i ≢ slot f j
slot-ne f i j v r q ne e =
    ne (
      omega (arith, slot-eq f i v r, slot-eq f j v q, e, v.idx, r.past, r.recent, q.past, q.recent))

pub is_set-slot : (f : NonceFilter) (i : ℕ) → is_set f i ≡ get_bit f.words (place (slot f i))
unfolding is_set bitmap_index slot
is_set-slot f i = refl

module _ (f : NonceFilter) (c : ℕ) (v : IsValid f) (r : InReach f c) where
  pub set_counter-IsValid : IsValid (set_counter f c)
  unfolding set_counter
  set_counter-IsValid = record {
    shape = put_bit-IsBitmap f.words _ true v.shape;
    idx = v.idx;
    small = v.small;
  }

  pub is_set-set_counter_self : is_set (set_counter f c) c ≡ true
  unfolding set_counter is_set bitmap_index slot
  is_set-set_counter_self = get_bit-put_bit_self f.words (slot f c) true v.shape (slot-lt f c v r)

  pub is_set-set_counter_ne :
      (i : ℕ) → InReach f i → c ≢ i → is_set (set_counter f c) i ≡ is_set f i
  unfolding set_counter is_set bitmap_index slot
  is_set-set_counter_ne i q ne =
      get_bit-put_bit_ne f.words (slot f c) (slot f i) true (slot-ne f c i v r q ne)
