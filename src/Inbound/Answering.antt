-- ===== src/Inbound/Answering.antt =====
-- What the two handlers of a handshake leave in the slots of a peer.
use vlink.Prelude.{ℕ, true, List, [], ◌∷◌, Option, none, some, ◌≡◌, refl, sym, ap, ◌∙◌, inl, inr}
use vlink.Outcome.{Outcome-cases, ok_inj, bind-eq-ok, Outcome, ok, panic, ◌>>=◌}
use vlink.Protocol.{
  Error, HandshakeResponse, handshake_initiation_packet_size, handshake_response_packet_size,
}
use vlink.Noise.Crypto.{Primitives}
use vlink.Noise.Handshake.{IncomingInitiation}
use vlink.Sessions.{Session, ActiveSession, prepare_next, make_room, same_index}
use vlink.Sessions.Peer.{IsHeld, complete_uninit-IsHeld}
use vlink.Tunnel.{Handshake, respond, finalize}
use vlink.Monitor.{AtomicTimestamp}
use vlink.Peer.{
  Peer, Effect, sent, staged, handshake_complete, update_endpoint, put_sessions, put_handshake,
  count, mark_initiated, mark_completed,
}
use vlink.Inbound.{handle_handshake_initiation, handle_handshake_response}

prepare_next-next : (a b : ActiveSession) (s : Session) → prepare_next a s ≡ ok b → b.next ≡ some s
unfolding prepare_next
prepare_next-next a b s h =
    let (room, e, done) = bind-eq-ok (make_room a) _ h in
    sym (ap (λ (c : ActiveSession). c.next) (ok_inj done))

abbrev third_slot : List (Option Session) → Option Session
third_slot [] = none
third_slot (a ∷ []) = none
third_slot (a ∷ b ∷ []) = none
third_slot (a ∷ b ∷ c ∷ others) = c

module _ (p : Primitives) where
  -- The peer behind an answered initiation.
  pub record IsAnswering (peer peer1 : Peer) (inc : IncomingInitiation) (f : List ℕ) (now : ℕ)
      (payload : List ℕ) : Type 0 where
    pub after : Handshake
    pub session : Session
    pub responded : respond p peer.handshake inc f now ≡ ok (after, session, payload)
    pub waits : peer1.sessions.next ≡ some session

  sent-none :
      {peer peer1 : Peer} {e : ℕ} {bs : List ℕ}
      → ◌≡◌ {A = Outcome Error (Peer × List Effect)} (ok (peer, [])) (ok (peer1, sent e bs ∷ []))
      → ⊥
  sent-none h = cc

  panic-ok : {A : Type 0} {a : A} → ◌≡◌ {A = Outcome Error A} panic (ok a) → ⊥
  panic-ok h = cc

  sent_eq :
      {e k : ℕ} {bs cs : List ℕ} → ◌≡◌ {A = List Effect} (sent e bs ∷ []) (sent k cs ∷ []) → bs ≡ cs
  sent_eq h = cc

  pub handle_handshake_initiation-IsAnswering :
      (peer peer1 : Peer) (endpoint : ℕ) (inc : IncomingInitiation) (f : List ℕ) (now : ℕ)
      (payload : List ℕ)
      → handle_handshake_initiation p peer endpoint inc f now
        ≡ ok (peer1, sent endpoint payload ∷ [])
      → IsAnswering peer peer1 inc f now payload
  unfolding handle_handshake_initiation put_handshake put_sessions update_endpoint mark_initiated
      count
  handle_handshake_initiation-IsAnswering peer peer1 endpoint inc f now payload h =
      let run = handle_handshake_initiation p peer endpoint inc f now in
      elim (Outcome-cases (respond p peer.handshake inc f now)) [
        | inl ((after, session, bytes), e) ↦
            let counted = count handshake_initiation_packet_size peer in
            let k : ActiveSession → Outcome Error (Peer × List Effect) = λ sessions. ok (
              mark_initiated now
                  (update_endpoint (put_sessions (put_handshake counted after) sessions) endpoint),
              sent endpoint bytes ∷ [],
            ) in
            let m = prepare_next (put_handshake counted after).sessions session in
            let opened : run ≡ (m >>= k) = rw (e, handle_handshake_initiation) refl in
            let (sessions, prepared, done) = bind-eq-ok m k (sym opened ∙ h) in
            let parts = ok_inj done in
            record {
              after = after;
              session = session;
              responded =
                  e
                  ∙ ap {B = Outcome Error (Handshake × Session × List ℕ)}
                      (λ bs. ok (after, session, bs))
                      (sent_eq (ap (λ (r : Peer × List Effect). r.1) parts));
              waits =
                  ap (λ (r : Peer × List Effect). r.0.sessions.next) (sym parts)
                  ∙ prepare_next-next (put_handshake counted after).sessions sessions session
                      prepared;
            }
        | inr (inl (x, e)) ↦
            let dropped : run ≡ ok (count handshake_initiation_packet_size peer, []) =
              rw (e, handle_handshake_initiation) refl in
            absurd (sent-none (sym dropped ∙ h))
        | inr (inr e) ↦
            let stopped : run ≡ panic = rw (e, handle_handshake_initiation) refl in
            absurd (panic-ok (sym stopped ∙ h))
      ]

  -- The peer behind a response that completes a handshake.
  pub record IsEstablished (peer peer2 : Peer) (endpoint : ℕ) (packet : HandshakeResponse) (now : ℕ)
      (system : AtomicTimestamp) (session : Session) : Type 0 where
    pub handled :
        handle_handshake_response p peer endpoint packet now system
        ≡ ok (peer2, handshake_complete peer.pub_key ∷ staged [] ∷ [])
    pub current : peer2.sessions.current ≡ some session

  pub handle_handshake_response-IsEstablished :
      (rest : ℕ → Option Session) (peer : Peer) (endpoint : ℕ) (packet : HandshakeResponse)
      (now : ℕ) (system : AtomicTimestamp) (session : Session)
      → IsHeld rest peer.sessions
      → finalize p peer.handshake packet now ≡ ok session
      → same_index peer.sessions.uninit session ≡ true
      → (peer2 : Peer) × IsEstablished peer peer2 endpoint packet now system session
  unfolding handle_handshake_response put_sessions update_endpoint mark_completed count
  handle_handshake_response-IsEstablished rest peer endpoint packet now system session held
        finalized same =
      let (b, completed, held2, slots2) =
        complete_uninit-IsHeld rest peer.sessions session held same in
      let known = put_sessions (count handshake_response_packet_size peer) b in
      (
        update_endpoint (mark_completed now system known) endpoint,
        record {
          handled = rw (finalized, handle_handshake_response, completed) refl;
          current = ap third_slot slots2;
        },
      )
