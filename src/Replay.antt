-- ===== src/Replay.antt =====
-- The replay filter of a session, vlink-tun/src/device/peer/session.rs (`NonceFilter`).
-- A word of the bitmap is the list of its 64 bits, the lowest first.
mod Bitmap
mod Slots
mod Advance
pub mod Tracking
pub mod Safety
pub mod Refinement
pub mod Stale
mod Examples
use vlink.Prelude.{
  ℕ, ◌+◌, ◌-◌, ◌*◌, ◌/◌, ◌%◌, zero, suc, Bool, true, false, not, ◌&&◌, List, [], ◌∷◌, replicate,
  get_or, set, ltb, leb, if◌then◌else◌,
}
use vlink.Prelude.Words.{add64, sub64}

abbrev pub max_replay_size : ℕ
max_replay_size = 1024

pub record NonceFilter : Type 0 where
  pub next : ℕ
  pub accepted : ℕ
  pub words : List (List Bool)
  pub next_idx : ℕ

abbrev pub empty_words : List (List Bool)
empty_words = replicate (max_replay_size / 64) (replicate 64 false)

unfoldable pub new : NonceFilter
new = record { next = 0; accepted = 0; words = empty_words; next_idx = 0 }

-- The slot of the bitmap that stands for counter `i`.
pub slot : NonceFilter → ℕ → ℕ
slot f i =
    let offset = sub64 f.next i in
    if leb offset f.next_idx then f.next_idx - offset else max_replay_size + f.next_idx - offset

-- `bitmap_index`: the word and the bit of that slot.
pub bitmap_index : NonceFilter → ℕ → ℕ × ℕ
unfolding slot
bitmap_index f i = let s = slot f i in (s / 64, s - s / 64 * 64)

-- `words[w]` with its bit `b` made `v`: `|= 1 << b`, and `&= !(1 << b)`.
pub put_bit : List (List Bool) → ℕ × ℕ → Bool → List (List Bool)
put_bit ws (w, b) v = set ws w (set (get_or ws w (replicate 64 false)) b v)

pub get_bit : List (List Bool) → ℕ × ℕ → Bool
get_bit ws (w, b) = get_or (get_or ws w (replicate 64 false)) b false

pub is_set : NonceFilter → ℕ → Bool
is_set f i = get_bit f.words (bitmap_index f i)

pub set_counter : NonceFilter → ℕ → NonceFilter
set_counter f i = record f { words = put_bit f.words (bitmap_index f i) true }

pub unset_counter : NonceFilter → ℕ → NonceFilter
unset_counter f i = record f { words = put_bit f.words (bitmap_index f i) false }

pub can_accept : NonceFilter → ℕ → Bool
can_accept f counter =
    if leb f.next counter
    then true
    else if leb (add64 counter max_replay_size) f.next
    then false
    else not (is_set f counter)

pub advance : NonceFilter → NonceFilter
advance f =
    let cleared =
      if ltb max_replay_size f.next then unset_counter f (sub64 f.next max_replay_size) else f in
    record cleared {
      next = add64 cleared.next 1;
      next_idx = (cleared.next_idx + 1) % max_replay_size;
    }

-- `while self.next < counter { self.advance() }`, on fuel.
pub advance_to : ℕ → ℕ → NonceFilter → NonceFilter
advance_to zero counter f = f
advance_to (suc fuel) counter f = elim (ltb f.next counter) [
  | true ↦ advance_to fuel counter (advance f)
  | false ↦ f
]

-- The fuel is the number of rounds, `counter - next`.
pub accept : NonceFilter → ℕ → NonceFilter
accept f counter =
    let counted = record f { accepted = add64 f.accepted 1 } in
    if ltb counter f.next
    then set_counter counted counter
    else if ltb f.next counter && leb max_replay_size (sub64 counter f.next)
    then set_counter (record counted { words = empty_words; next_idx = 0; next = add64 counter 1 })
        counter
    else set_counter (advance (advance_to (counter - f.next) counter counted)) counter

-- The counters of a stream of packets, in order: one that `can_accept` refuses is dropped, and one
-- that it lets through is recorded. The second list holds the recorded ones, newest first.
pub receive : NonceFilter → List ℕ → ℕ → NonceFilter × List ℕ × Bool
receive f log counter =
    if can_accept f counter then (accept f counter, counter ∷ log, true) else (f, log, false)

pub run : NonceFilter → List ℕ → List ℕ → NonceFilter × List ℕ × List Bool
run f log [] = (f, log, [])
run f log (c ∷ cs) =
    let (f', log', answer) = receive f log c in
    let (g, out, answers) = run f' log' cs in (g, out, answer ∷ answers)
