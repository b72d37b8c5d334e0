-- ===== src/Replay/Refinement.antt =====
-- The window that the filter implements, over the counters recorded so far, and the refinement.
use vlink.Prelude.{
  ℕ, ◌+◌, ◌≤◌, ◌≡◌, ◌≢◌, refl, sym, ap, ◌∙◌, Bool, true, false, leb, Bool-cases, inl, inr, arith,
  if◌then◌else◌, List, [], ◌∷◌, contains, not, max, All,
}
use native.Mathlib.Decide.{dec_lt}
use vlink.Protocol.{reject_after_messages}
use vlink.Replay.{NonceFilter, new, can_accept, accept, receive, run}
use vlink.Replay.Tracking.{Tracks}
use vlink.Replay.Safety.{new-Tracks, replay-refused, fresh-accepted, accept-Tracks}

-- One above the largest counter of the log.
abbrev pub bound : List ℕ → ℕ
bound [] = 0
bound (c ∷ log) = max (bound log) (c + 1)

-- A sliding window of 1024 below the bound: newer counters pass, older ones do not, and inside it a
-- counter passes once.
pub window_accepts : List ℕ → ℕ → Bool
window_accepts log c =
    if leb (bound log) c
    then true
    else if leb (c + 1024) (bound log)
    then false
    else not (contains log c)

pub window_run : List ℕ → List ℕ → List ℕ × List Bool
window_run log [] = (log, [])
window_run log (c ∷ cs) =
    let answer = window_accepts log c in
    let (out, answers) = window_run (if answer then c ∷ log else log) cs in (out, answer ∷ answers)

abbrev pub IsCounter : ℕ → Type 0
IsCounter c = (c ≤ reject_after_messages) × (c ≢ 1024)

can_accept-window :
    (f : NonceFilter) (log : List ℕ) (c : ℕ)
    → Tracks f log
    → f.next ≡ bound log
    → IsCounter c
    → can_accept f c ≡ window_accepts log c
unfolding can_accept window_accepts
can_accept-window f log c t e ok = elim (dec_lt f.next (c + 1024)) [
  | no old ↦ ground (arith, t.valid.small)
  | yes near ↦ elim (Bool-cases (contains log c)) [
    | inl seen ↦
        let refused : can_accept f c ≡ false = replay-refused f log c t seen in
        ground (arith, t.below c seen)
    | inr fresh ↦
        let passes : can_accept f c ≡ true = fresh-accepted f log c t ok.1 ok.0 near fresh in
        ground arith
  ]
]

receive_pass :
    (f : NonceFilter) (log : List ℕ) (c : ℕ)
    → can_accept f c ≡ true
    → receive f log c ≡ (accept f c, c ∷ log, true)
unfolding receive
receive_pass f log c h = rw h

receive_drop :
    (f : NonceFilter) (log : List ℕ) (c : ℕ)
    → can_accept f c ≡ false
    → receive f log c ≡ (f, log, false)
unfolding receive
receive_drop f log c h = rw h

run_refines :
    (f : NonceFilter) (log cs : List ℕ)
    → Tracks f log
    → f.next ≡ bound log
    → All IsCounter cs
    → ((run f log cs).1, (run f log cs).2) ≡ window_run log cs
unfolding run window_run
run_refines f log [] t e ok = refl
run_refines f log (c ∷ cs) t e ok = elim (Bool-cases (can_accept f c)) [
  | inl passes ↦
      let (t', n) = accept-Tracks f log c t ok.0.0 passes in
      rw (receive_pass f log c passes, sym (can_accept-window f log c t e ok.0) ∙ passes)
        (ap (λ r. (r.0, true ∷ r.1))
          (run_refines (accept f c) (c ∷ log) cs t' (omega (arith, n)) ok.1))
  | inr drops ↦
      rw (receive_drop f log c drops, sym (can_accept-window f log c t e ok.0) ∙ drops)
        (ap (λ r. (r.0, false ∷ r.1)) (run_refines f log cs t e ok.1))
]

-- On every stream of counters other than 1024, each at most REJECT_AFTER_MESSAGES, a fresh filter
-- records and answers as the sliding window of the last 1024 counters does.
pub run-new_refines :
    (cs : List ℕ) → All IsCounter cs → ((run new [] cs).1, (run new [] cs).2) ≡ window_run [] cs
unfolding new
run-new_refines cs ok = run_refines new [] cs new-Tracks refl ok

-- The list holds no counter twice.
abbrev pub IsDistinct : List ℕ → Type 0
IsDistinct [] = Unit {0}
IsDistinct (c ∷ log) = (contains log c ≡ false) × IsDistinct log

-- Recorded counters are new to the log, whatever the stream.
run-IsDistinct :
    (f : NonceFilter) (log cs : List ℕ)
    → Tracks f log
    → All (λ c. c ≤ reject_after_messages) cs
    → IsDistinct log
    → IsDistinct (run f log cs).1
unfolding run
run-IsDistinct f log [] t ok d = d
run-IsDistinct f log (c ∷ cs) t ok d = elim (Bool-cases (can_accept f c)) [
  | inl passes ↦ rw (receive_pass f log c passes) (
      run-IsDistinct (accept f c) (c ∷ log) cs (accept-Tracks f log c t ok.0 passes).0 ok.1
        (unseen passes, d))
  | inr drops ↦ rw (receive_drop f log c drops) (run-IsDistinct f log cs t ok.1 d)
]
  where
    unseen : can_accept f c ≡ true → contains log c ≡ false
    unseen h = elim (Bool-cases (contains log c)) [
      | inl seen ↦ let refused : can_accept f c ≡ false = replay-refused f log c t seen in cc
      | inr fresh ↦ fresh
    ]

-- On every stream of counters of at most REJECT_AFTER_MESSAGES, a fresh filter lets no counter
-- through twice.
pub run-new-IsDistinct :
    (cs : List ℕ) → All (λ c. c ≤ reject_after_messages) cs → IsDistinct (run new [] cs).1
run-new-IsDistinct cs ok = run-IsDistinct new [] cs new-Tracks ok tt
