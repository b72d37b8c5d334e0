-- ===== src/Replay/Examples.antt =====
-- The theorems at concrete streams of counters, and the source's own test in small.
use vlink.Prelude.{ℕ, ◌+◌, ◌<◌, ◌≡◌, refl, true, false, List, [], ◌∷◌, contains, arith}
use vlink.Replay.{
  NonceFilter, new, can_accept, accept, run, advance, advance_to, is_set, set_counter,
  unset_counter, receive, bitmap_index, slot, get_bit, put_bit,
}
use vlink.Replay.Tracking.{Tracks}
use vlink.Replay.Safety.{new-Tracks, accept-Tracks, fresh-accepted, advance_to-Tracks}
use vlink.Replay.Refinement.{window_run, run-new_refines}
use vlink.Replay.Stale.{stale-1024}

abbrev stream : List ℕ
stream = 0 ∷ 3 ∷ 1 ∷ 3 ∷ 5000 ∷ 4500 ∷ 3976 ∷ 5000 ∷ []

-- The late copies of 3 and 5000 are dropped, and so is 3976, which is 1025 below 5001.
stream_answers :
    (run new [] stream).2 ≡ true ∷ true ∷ true ∷ false ∷ true ∷ true ∷ false ∷ false ∷ []
unfolding run new receive can_accept accept advance advance_to is_set set_counter unset_counter
    bitmap_index slot get_bit put_bit
stream_answers = refl

run-new_refines_example : ((run new [] stream).1, (run new [] stream).2) ≡ window_run [] stream
run-new_refines_example = run-new_refines stream (omega arith)

new_accepts : can_accept new 0 ≡ true
unfolding can_accept new
new_accepts = refl

after_zero : NonceFilter
after_zero = accept new 0

after_zero-Tracks : Tracks after_zero (0 ∷ []) × (after_zero.next ≡ 1)
unfolding after_zero new
after_zero-Tracks = accept-Tracks new [] 0 new-Tracks (omega arith) new_accepts

advance_to-Tracks_example : Tracks (advance_to 9 9 new) [] × ((advance_to 9 9 new).next ≡ 9)
unfolding new
advance_to-Tracks_example = advance_to-Tracks 9 9 new [] refl (omega arith) new-Tracks

-- 0 and 1023 have come, and 1024 has not.
edge : NonceFilter
edge = accept after_zero 1023

edge_fresh : can_accept after_zero 1023 ≡ true
unfolding contains
edge_fresh =
    fresh-accepted after_zero (0 ∷ []) 1023 after_zero-Tracks.0 (omega arith) (omega arith)
      (omega (arith, after_zero-Tracks.1)) refl

edge-Tracks : Tracks edge (1023 ∷ 0 ∷ []) × (edge.next ≡ 1024)
unfolding edge
edge-Tracks =
    let (t, n) =
      accept-Tracks after_zero (0 ∷ []) 1023 after_zero-Tracks.0 (omega arith) edge_fresh in
    (t, omega (arith, n, after_zero-Tracks.1))

stale-1024_example :
    (can_accept (accept edge 1025) 1024 ≡ false)
    × (contains (1025 ∷ 1023 ∷ 0 ∷ []) 1024 ≡ false)
    × ((accept edge 1025).next < 1024 + 1024)
unfolding contains
stale-1024_example =
    stale-1024 edge (1023 ∷ 0 ∷ []) 1025 edge-Tracks.0 edge-Tracks.1 refl (omega arith)
      (omega arith)
