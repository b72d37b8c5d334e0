-- ===== src/Sessions/Examples.antt =====
-- The theorems on sessions at concrete ones.
use vlink.Prelude.{ℕ, Option, none, some, ◌≡◌, refl, [], ◌∷◌, arith}
use vlink.Outcome.{ok}
use vlink.Replay.{new}
use vlink.Sessions.{Session, ActiveSession, new_index, new_active, insert, get_by_index}
use vlink.Sessions.Registry.{insert-IsConsistent}
use vlink.Sessions.Operations.{prepares_next, apply, slots_after, apply-IsHeld}
use vlink.Sessions.Peer.{IsHeld, slots}

abbrev session : ℕ → ℕ → Session
session i receiver = record {
  secret = record {
    local = record { private = 1 ∷ []; public = 2 ∷ [] };
    public = 3 ∷ [];
    psk = [];
  };
  sender_index = i;
  sender_nonce = 0;
  sender_key = [];
  receiver_index = receiver;
  receiver_key = [];
  nonce_filter = new;
  created_at = 0;
}

abbrev nobody : ℕ → Option Session
nobody i = none

abbrev fresh : ActiveSession
fresh = new_active (new_index 5)

fresh-IsHeld : IsHeld nobody fresh
unfolding new_active new_index
fresh-IsHeld = record { consistent = λ i s h. cc; found = λ i. refl; apart = λ i. omega arith }

-- A peer that has sent an initiation, and one that has answered one.
abbrev started : ActiveSession
started = record fresh { index = insert (new_index 5) (session 5 0); uninit = some (session 5 0) }

abbrev answering : ActiveSession
answering = record fresh { index = insert (new_index 5) (session 5 7); next = some (session 5 7) }

started-IsHeld : IsHeld nobody started
unfolding new_active new_index insert
started-IsHeld = record {
  consistent = insert-IsConsistent (new_index 5) (session 5 0) fresh-IsHeld.consistent;
  found = λ i. ground arith;
  apart = λ i. ground arith;
}

answering-IsHeld : IsHeld nobody answering
unfolding new_active new_index insert
answering-IsHeld = record {
  consistent = insert-IsConsistent (new_index 5) (session 5 7) fresh-IsHeld.consistent;
  found = λ i. ground arith;
  apart = λ i. ground arith;
}

-- A session of another key stays.
abbrev other : Session
other = record (session 6 0) { secret = record (session 6 0).secret { public = 4 ∷ [] } }

-- A second answer, to a peer whose first one still waits.
apply-IsHeld_example :
    (b : ActiveSession) × (apply (prepares_next (session 6 8)) answering ≡ ok b)
    × IsHeld nobody b
    × (slots b ≡ slots_after (prepares_next (session 6 8)) answering)
unfolding new_active new_index insert get_by_index
apply-IsHeld_example =
    apply-IsHeld nobody answering (prepares_next (session 6 8)) answering-IsHeld refl
