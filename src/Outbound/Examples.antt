-- ===== src/Outbound/Examples.antt =====
-- Two rounds of the outbound loop, at stand-ins for the crates.
use vlink.Prelude.{ℕ, ◌≡◌, refl, true, List, [], ◌∷◌, ◌++◌, replicate, some, none, arith}
use vlink.Outcome.{ok}
use vlink.Protocol.{to_bytes}
use vlink.Noise.Examples.{stand_in, to_bob}
use vlink.Replay.{new}
use vlink.Sessions.{Session, new_index, new_active}
use vlink.Tunnel.{encrypt_data, cipher_encrypt, next_nonce}
use vlink.Peer.{Peer, Effect, sent, new_peer, send_outbound, count_sent}
use vlink.Outbound.{tick_outbound, send_all}
use vlink.Outbound.Sealed.{IsSealing}
use vlink.Outbound.Nonces.{counters, IsRising, send_all-IsRising}

abbrev session : Session
session = record {
  secret = to_bob;
  sender_index = 2;
  sender_nonce = 3;
  sender_key = replicate 32 6;
  receiver_index = 1;
  receiver_key = replicate 32 6;
  nonce_filter = new;
  created_at = 0;
}

abbrev idle : Peer
idle = new_peer stand_in to_bob (new_index 2) (some 5) none true 0

abbrev peer : Peer
peer = record idle { sessions = record idle.sessions { current = some session } }

abbrev rounds : List (List ℕ × ℕ)
rounds = ((7 ∷ []), 10) ∷ ((8 ∷ []), 11) ∷ []

-- What the second round leaves behind, and what both of them sent.
abbrev finished : Peer
finished =
    let used = record peer {
      sessions = record peer.sessions { current = some (record session { sender_nonce = 5 }) };
    } in
    count_sent 11 33 (count_sent 10 33 used)

abbrev packet : ℕ → ℕ → List ℕ
packet n byte =
    (4 ∷ 0 ∷ 0 ∷ 0 ∷ 1 ∷ 0 ∷ 0 ∷ 0 ∷ n ∷ 0 ∷ 0 ∷ 0 ∷ 0 ∷ 0 ∷ 0 ∷ 0 ∷ byte ∷ []) ++ replicate 16 0

abbrev effects : List Effect
effects = sent 5 (packet 3 7) ∷ sent 5 (packet 4 8) ∷ []

two_rounds : send_all stand_in peer rounds ≡ ok (finished, effects)
unfolding send_all tick_outbound encrypt_data cipher_encrypt next_nonce new_peer send_outbound
    count_sent to_bytes new_active
two_rounds = refl

send_all-IsRising_example :
    IsRising 3 (counters effects)
    × IsSealing stand_in peer.endpoint peer.pub_key session 3 rounds effects
send_all-IsRising_example =
    send_all-IsRising stand_in peer finished session rounds effects refl (omega arith) two_rounds
