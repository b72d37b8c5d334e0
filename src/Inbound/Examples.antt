-- ===== src/Inbound/Examples.antt =====
-- A packet that comes twice, at stand-ins for the crates.
use vlink.Prelude.{contains, true, false, ◌≡◌, refl, List, [], ◌∷◌, ◌++◌, replicate, none, arith}
use vlink.Outcome.{ok}
use vlink.Protocol.{TransportData, packet_len}
use vlink.Noise.Examples.{stand_in, stand_in-IsLawful, to_bob}
use vlink.Replay.{new, can_accept, accept}
use vlink.Replay.Safety.{new-Tracks, fresh-accepted, replay-refused, accept-Tracks}
use vlink.Sessions.{Session, new_index, new_active, complete_next, same_index}
use vlink.Tunnel.{decrypt_data, cipher_decrypt, encrypt_data, cipher_encrypt, next_nonce}
use vlink.Monitor.{AtomicTimestamp}
use vlink.Peer.{Peer, Effect, delivered, new_peer, count, put_sessions, update_endpoint}
use vlink.Inbound.{deliver, receive, handle_transport_data}
use vlink.Inbound.Delivery.{handle_transport_data-once}
use vlink.Inbound.Progress.{handle_transport_data-delivers}

abbrev session : Session
session = record {
  secret = to_bob;
  sender_index = 2;
  sender_nonce = 0;
  sender_key = replicate 32 6;
  receiver_index = 1;
  receiver_key = replicate 32 6;
  nonce_filter = new;
  created_at = 0;
}

abbrev packet : TransportData
packet = record { receiver_index = 2; counter = 1; payload = (7 ∷ 8 ∷ []) ++ replicate 16 0 }

abbrev peer : Peer
peer = new_peer stand_in to_bob (new_index 2) none none true 0

abbrev stamp : AtomicTimestamp
stamp = record { secs = 1; nanos = 2 }

accepts : can_accept new 1 ≡ true
unfolding new contains
accepts = fresh-accepted new [] 1 new-Tracks (omega arith) (omega arith) (omega arith) refl

refuses : can_accept (accept new 1) 1 ≡ false
unfolding contains
refuses =
    replay-refused (accept new 1) (1 ∷ []) 1
      (accept-Tracks new [] 1 new-Tracks (omega arith) accepts).0 refl

-- The peer and the session after the first packet, and the peer after the second.
abbrev counted : Peer
counted = update_endpoint (put_sessions (count (packet_len packet) peer) peer.sessions) 5

abbrev recorded : Session
recorded = record session { nonce_filter = accept new 1 }

once_lem :
    handle_transport_data stand_in peer 5 packet session 9 stamp
    ≡ ok (counted, recorded, delivered (7 ∷ 8 ∷ []) ∷ [])
unfolding handle_transport_data receive deliver complete_next same_index new_active decrypt_data
    cipher_decrypt new_peer count put_sessions update_endpoint
once_lem = rw (accepts) refl

twice_lem :
    handle_transport_data stand_in counted 5 packet recorded 10 stamp
    ≡ ok (put_sessions (count (packet_len packet) counted) counted.sessions, recorded, [])
unfolding handle_transport_data receive complete_next same_index new_active new_peer count
    put_sessions update_endpoint
twice_lem = rw (refuses) refl

handle_transport_data-once_example : ◌≡◌ {A = List Effect} [] []
handle_transport_data-once_example =
    handle_transport_data-once stand_in peer counted 5 packet session recorded 9 stamp (7 ∷ 8 ∷ [])
      [] [] counted (put_sessions (count (packet_len packet) counted) counted.sessions) 5 recorded
      10 stamp [] new-Tracks (omega arith) once_lem twice_lem

-- The other side of the session, which has sent one packet.
abbrev sender : Session
sender = record session { sender_index = 1; sender_nonce = 1; receiver_index = 2 }

handle_transport_data-delivers_example :
    (peer' : Peer) × (session' : Session) × (handle_transport_data stand_in peer 5 packet session 9
        stamp
      ≡ ok (peer', session', delivered (7 ∷ 8 ∷ []) ∷ []))
unfolding contains encrypt_data cipher_encrypt next_nonce new new_peer new_active new_index
handle_transport_data-delivers_example =
    handle_transport_data-delivers stand_in stand_in-IsLawful (λ i. none) peer 5 packet sender
      session 7 (8 ∷ []) [] 9 stamp
      (record { consistent = λ i s h. cc; found = λ i. refl; apart = λ i. omega arith }) new-Tracks
      (omega arith) (omega arith) (omega arith) refl (record { key_eq = refl; index_eq = refl })
      refl
