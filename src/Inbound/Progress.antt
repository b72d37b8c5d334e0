-- ===== src/Inbound/Progress.antt =====
-- A fresh packet of the other side gets through.
use vlink.Prelude.{
  ℕ, ◌+◌, ◌≤◌, ◌<◌, Bool, true, false, Option, List, [], ◌∷◌, ◌≡◌, ◌≢◌, refl, ◌∙◌, inl, inr,
  if◌then◌else◌, contains, Bool-cases,
}
use vlink.Outcome.{ok}
use vlink.Protocol.{TransportData, reject_after_messages, packet_len}
use vlink.Noise.Crypto.{Primitives}
use vlink.Noise.Laws.{IsLawful}
use vlink.Replay.{can_accept, accept}
use vlink.Replay.Tracking.{Tracks}
use vlink.Replay.Safety.{fresh-accepted}
use vlink.Sessions.{Session, ActiveSession, complete_next, same_index}
use vlink.Sessions.Peer.{IsHeld, complete_next-IsHeld}
use vlink.Tunnel.{encrypt_data, decrypt_data}
use vlink.Tunnel.Pairing.{IsTowards, decrypt-encrypt}
use vlink.Monitor.{AtomicTimestamp}
use vlink.Peer.{Peer, delivered, count, put_sessions, update_endpoint, mark_completed}
use vlink.Inbound.{deliver, receive, handle_transport_data}

-- `complete_next` does not fail where the registry is consistent.
complete_next-ok :
    (rest : ℕ → Option Session) (a : ActiveSession) (s : Session)
    → IsHeld rest a
    → (b : ActiveSession) × (flag : Bool) × (complete_next a s ≡ ok (b, flag))
unfolding complete_next
complete_next-ok rest a s held = elim (Bool-cases (same_index a.next s)) [
  | inl same ↦ let (b, e, h, left) = complete_next-IsHeld rest a s held same in (b, true, e)
  | inr apart ↦ (a, false, rw (apart, complete_next) refl)
]

module _ (p : Primitives) where
  receive-fresh :
      (peer : Peer) (endpoint : ℕ) (packet : TransportData) (session : Session) (b : ℕ)
      (text : List ℕ)
      → can_accept session.nonce_filter packet.counter ≡ true
      → decrypt_data p session packet ≡ ok (b ∷ text)
      → receive p peer endpoint packet session
        ≡ ok (
          update_endpoint peer endpoint,
          record session { nonce_filter = accept session.nonce_filter packet.counter },
          delivered (b ∷ text) ∷ [],
        )
  unfolding receive deliver
  receive-fresh peer endpoint packet session b text fresh opened =
      rw (fresh, receive, opened, deliver) refl

  -- The peer behind `complete_next`.
  abbrev settled : Peer → TransportData → ActiveSession → Peer
  settled peer packet a = put_sessions (count (packet_len packet) peer) a

  handle_transport_data-step :
      (peer : Peer) (endpoint : ℕ) (packet : TransportData) (session : Session) (now : ℕ)
      (system : AtomicTimestamp) (a : ActiveSession) (flag : Bool)
      → complete_next peer.sessions session ≡ ok (a, flag)
      → (known : Peer) × (handle_transport_data p peer endpoint packet session now system
          ≡ receive p known endpoint packet session)
  unfolding handle_transport_data
  handle_transport_data-step peer endpoint packet session now system a flag e = (
    if flag then mark_completed now system (settled peer packet a) else settled peer packet a,
    rw (e, handle_transport_data) refl,
  )

  -- Under lawful crates, where the registry is consistent and the filter of the session tracks a
  -- log: a packet that the other side sealed from data that is not empty, with a counter of the
  -- window that the log does not hold, other than 1024 and of at most REJECT_AFTER_MESSAGES, is
  -- delivered to the tun device, and this is the only effect.
  pub handle_transport_data-delivers :
      IsLawful p
      → (rest : ℕ → Option Session) (peer : Peer) (endpoint : ℕ) (packet : TransportData)
        (s session : Session) (b : ℕ) (text log : List ℕ) (now : ℕ) (system : AtomicTimestamp)
      → IsHeld rest peer.sessions
      → Tracks session.nonce_filter log
      → packet.counter ≢ 1024
      → packet.counter ≤ reject_after_messages
      → session.nonce_filter.next < packet.counter + 1024
      → contains log packet.counter ≡ false
      → IsTowards s session
      → (encrypt_data p s (b ∷ text)).1 ≡ ok packet
      → (peer' : Peer) × (session' : Session) × (handle_transport_data p peer endpoint packet
            session now system
          ≡ ok (peer', session', delivered (b ∷ text) ∷ []))
  handle_transport_data-delivers law rest peer endpoint packet s session b text log now system held
        tracks ne small near fresh towards sealed =
      let (a, flag, e) = complete_next-ok rest peer.sessions session held in
      let (known, step) =
        handle_transport_data-step peer endpoint packet session now system a flag e in
      let accepted =
        fresh-accepted session.nonce_filter log packet.counter tracks ne small near fresh in
      let opened = (decrypt-encrypt p law s session (b ∷ text) packet towards sealed).0 in
      (_, _, step ∙ receive-fresh known endpoint packet session b text accepted opened)
