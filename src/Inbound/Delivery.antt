-- ===== src/Inbound/Delivery.antt =====
-- No packet is delivered twice, and what a keepalive leaves behind.
use vlink.Prelude.{ℕ, ◌≤◌, true, false, List, [], ◌∷◌, ◌≡◌, ap, ◌∙◌, contains-cons_self, arith}
use vlink.Outcome.{bind-eq-ok, ok}
use vlink.Protocol.{TransportData, reject_after_messages}
use vlink.Noise.Crypto.{Primitives}
use vlink.Replay.{can_accept, accept}
use vlink.Replay.Tracking.{Tracks}
use vlink.Replay.Safety.{accept-Tracks, replay-refused}
use vlink.Sessions.{Session, complete_next}
use vlink.Monitor.{AtomicTimestamp}
use vlink.Peer.{Peer, Effect, delivered}
use vlink.Inbound.{deliver, receive, handle_transport_data}

module _ (p : Primitives) where
  -- A refused counter delivers nothing.
  receive-refused :
      (peer peer' : Peer) (endpoint : ℕ) (packet : TransportData) (session session' : Session)
      (outs : List Effect)
      → can_accept session.nonce_filter packet.counter ≡ false
      → receive p peer endpoint packet session ≡ ok (peer', session', outs)
      → outs ≡ []
  unfolding receive
  receive-refused peer peer' endpoint packet session session' outs refused h = ground arith

  -- A delivery was let through, and records its counter.
  receive-delivers :
      (peer peer' : Peer) (endpoint : ℕ) (packet : TransportData) (session session' : Session)
      (out : List ℕ) (outs : List Effect)
      → receive p peer endpoint packet session ≡ ok (peer', session', delivered out ∷ outs)
      → (can_accept session.nonce_filter packet.counter ≡ true)
        × (session'.nonce_filter ≡ accept session.nonce_filter packet.counter)
  unfolding receive deliver
  receive-delivers peer peer' endpoint packet session session' out outs h = ground arith

  -- Where the filter of a session tracks a log, the counter of a packet is at most
  -- REJECT_AFTER_MESSAGES, and `handle_transport_data` delivers data: a later call on the same
  -- packet, with the session that the first one left and any state of any peer, delivers nothing.
  pub handle_transport_data-once :
      (peer peer' : Peer) (endpoint : ℕ) (packet : TransportData) (session session' : Session)
      (now : ℕ) (system : AtomicTimestamp) (out : List ℕ) (outs : List Effect) (log : List ℕ)
      (peer2 peer2' : Peer) (endpoint2 : ℕ) (again : Session) (later : ℕ)
      (system2 : AtomicTimestamp) (outs2 : List Effect)
      → Tracks session.nonce_filter log
      → packet.counter ≤ reject_after_messages
      → handle_transport_data p peer endpoint packet session now system
        ≡ ok (peer', session', delivered out ∷ outs)
      → handle_transport_data p peer2 endpoint2 packet session' later system2
        ≡ ok (peer2', again, outs2)
      → outs2 ≡ []
  unfolding handle_transport_data
  handle_transport_data-once peer peer' endpoint packet session session' now system out outs log
        peer2 peer2' endpoint2 again later system2 outs2 tracks small h h2 =
      let (r, e, k) = bind-eq-ok (complete_next peer.sessions session) _ h in
      let (r2, e2, k2) = bind-eq-ok (complete_next peer2.sessions session') _ h2 in
      let d = receive-delivers _ peer' endpoint packet session session' out outs k in
      let t = (accept-Tracks session.nonce_filter log packet.counter tracks small d.0).0 in
      let refused =
        replay-refused (accept session.nonce_filter packet.counter) (packet.counter ∷ log)
          packet.counter t (contains-cons_self packet.counter log) in
      receive-refused _ peer2' endpoint2 packet session' again outs2
        (ap (λ f. can_accept f packet.counter) d.1 ∙ refused) k2
