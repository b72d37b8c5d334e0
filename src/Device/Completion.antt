-- ===== src/Device/Completion.antt =====
-- The second half of a handshake between two devices: the answer, and the sessions on both sides.
use vlink.Prelude.{
  ℕ, true, List, [], ◌∷◌, length, Option, none, some, ◌≡◌, refl, sym, ap, ◌∙◌, ==_refl, arith,
}
use vlink.Outcome.{Outcome, ok}
use vlink.Protocol.{Error, HandshakeResponse}
use vlink.Noise.Crypto.{Primitives, PeerStaticSecret}
use vlink.Noise.Cookie.{SocketAddr, mac_generator}
use vlink.Noise.Handshake.{
  OutgoingInitiation, IncomingInitiation, outgoing_initiation, outgoing_response, with_macs,
}
use vlink.Noise.Laws.{IsLawful}
use vlink.Noise.Agreement.{secret_towards}
use vlink.Noise.Agreement
use vlink.Noise.Reply.{IsShared}
use vlink.Noise.Reply
use vlink.Sessions.{Session, get_by_index, same_index}
use vlink.Sessions.Peer.{IsHeld}
use vlink.Tunnel.{Handshake, respond}
use vlink.Tunnel.Pairing.{IsTowards, finalize-respond, respond-eq-ok}
use vlink.Monitor.{AtomicTimestamp}
use vlink.Peer.{Peer, sent}
use vlink.Inbound.{
  handshake_initiation_event, handshake_response_event, handle_handshake_initiation,
}
use vlink.Inbound.Answering.{
  IsEstablished, IsAnswering, handle_handshake_initiation-IsAnswering,
  handle_handshake_response-IsEstablished,
}
use vlink.Outbound.{start_handshake}
use vlink.Outbound.Starting.{IsStarted, start_handshake-IsStarted, pre_session}
use vlink.Cidr.{Networks}
use vlink.Peers.{get_by_key}
use vlink.Device.{DeviceInner, Action, inbound_staged, tick_inbound}
use vlink.Device.Meeting.{staged-response, signed-valid}
use vlink.Device.Handshake.{IsTied, IsHost, waiting-found, started-sent, received}

module _ (p : Primitives) (law : IsLawful p) where
  -- The answer of a peer is signed for the other device.
  answer-signed :
      (a b psk f : List ℕ) (beta : Peer) (after : Handshake) (s : Session)
      (inc : IncomingInitiation) (now : ℕ) (answer : List ℕ)
      → IsTied p law b a psk beta
      → respond p beta.handshake inc f now ≡ ok (after, s, answer)
      → (buf : List ℕ) × (answer ≡ with_macs p (mac_generator p (secret_towards p b a psk)) now buf)
  answer-signed a b psk f beta after s inc now answer tied responded =
      let (out, made, is_s) =
        respond-eq-ok p law beta.handshake after inc f now s answer responded in
      let index = beta.handshake.session_index.index in
      let macs = mac_generator p (secret_towards p b a psk) in
      let made2 =
        ap (λ x. outgoing_response p inc index x macs f now) (sym tied.secret)
        ∙ ap (λ m. outgoing_response p inc index beta.handshake.secret m f now) (sym tied.macs)
        ∙ made in
      let (x, sent_x) = Reply.outgoing-IsSent p a psk f inc b index macs now out answer made2 in
      (Reply.written p a psk f inc index x, sent_x.bytes)

  -- The index of an initiation is the one that the peer took.
  own_index :
      (a b psk e stamp : List ℕ) (index now : ℕ) (out : OutgoingInitiation) (payload : List ℕ)
      → outgoing_initiation p index
          (secret_towards p a b psk)
          (mac_generator p (secret_towards p a b psk))
          e
          stamp
          now
        ≡ ok (out, payload)
      → out.index ≡ index
  own_index a b psk e stamp index now out payload made =
      let (x, y, done) =
        Agreement.outgoing-IsSent p a b e index (mac_generator p (secret_towards p a b psk)) stamp
          now psk out payload made in
      ap (λ (o : OutgoingInitiation). o.index) done.state

  own-same :
      (pre mine : Session)
      → pre.sender_index ≡ mine.sender_index
      → same_index (some pre) mine ≡ true
  unfolding same_index
  own-same pre mine e = rw (e, ==_refl mine.sender_index) refl

  initiation_eq :
      {Net Table : Type 0} {inner : DeviceInner Net Table} {key : List ℕ} {e : ℕ}
      {x y : IncomingInitiation}
      → ◌≡◌ {A = Outcome Error (DeviceInner Net Table × List Action)}
          (ok (inner, inbound_staged key e (handshake_initiation_event x) ∷ []))
          (ok (inner, inbound_staged key e (handshake_initiation_event y) ∷ []))
      → x ≡ y
  initiation_eq h = cc

  -- The device of the initiator stages the answer, its peer makes the session with it the current one,
  -- the session of the responder waits, and each of the two opens what the other one seals.
  pub record IsMet {Net Table : Type 0} (n : Networks Net Table) (b : List ℕ)
      (alice : DeviceInner Net Table) (back : ℕ) (dst : SocketAddr) (answer : List ℕ) (then_a : ℕ)
      (nonce fresh : List ℕ) (system : AtomicTimestamp) (alpha1 beta1 : Peer) : Type 0 where
    pub packet : HandshakeResponse
    pub pre : Session
    pub mine : Session
    pub theirs : Session
    pub alpha2 : Peer
    pub staged :
        tick_inbound n p alice back dst answer then_a nonce fresh
        ≡ ok (alice, inbound_staged (p.public_of b) back (handshake_response_event packet pre) ∷ [])
    pub established : IsEstablished p alpha1 alpha2 back packet then_a system mine
    pub waits : beta1.sessions.next ≡ some theirs
    pub sends : IsTowards mine theirs
    pub receives : IsTowards theirs mine

  module _ {Net Table : Type 0} (n : Networks Net Table) (rest : ℕ → Option Session)
      (a b psk e f stamp : List ℕ) (alpha alpha1 beta beta1 : Peer) (now to : ℕ) (payload : List ℕ)
      (alice bob : DeviceInner Net Table) (from back : ℕ) (dst_a dst_b : SocketAddr)
      (then_a then_b : ℕ) (nonce fresh : List ℕ) (inc : IncomingInitiation) (answer : List ℕ)
      (system : AtomicTimestamp) where
    module _ (started : IsStarted p law rest alpha alpha1 e stamp now (sent to payload ∷ []))
        (tied_a : IsTied p law a b psk alpha) (tied_b : IsTied p law b a psk beta)
        (index_eq : started.out.index ≡ alpha.handshake.session_index.index)
        (shared : IsShared p started.out inc) (host : IsHost p law n a b alice)
        (same_registry : alice.peers.sessions ≡ alpha1.sessions.index) where
      met :
          IsAnswering p beta beta1 inc f then_b answer
          → IsMet n b alice back dst_a answer then_a nonce fresh system alpha1 beta1
      met answering =
          let (packet, mine, done) =
            finalize-respond p law a b psk f then_b then_a started.out inc alpha1.handshake
              beta.handshake answering.after answering.session answer shared started.state
              (started.secret ∙ tied_a.secret) tied_b.secret answering.responded tied_b.index_u32
              (omega (arith, index_eq, tied_a.index_u32)) in
          let pre = pre_session alpha.handshake.secret alpha.handshake.session_index.index now in
          let found =
            waiting-found rest alpha1.sessions pre packet.receiver_index started.held started.waits
              (done.addressed ∙ index_eq) in
          let is_own = sym (done.own_index ∙ index_eq) in
          let same : same_index alpha1.sessions.uninit mine ≡ true =
            ap (λ o. same_index o mine) started.waits ∙ own-same pre mine is_own in
          let (alpha2, established) =
            handle_handshake_response-IsEstablished p rest alpha1 back packet then_a system mine
              started.held done.finalized same in
          let (buf, signed) =
            answer-signed a b psk f beta answering.after answering.session inc then_b answer tied_b
              answering.responded in
          let valid =
            signed-valid n p law alice back dst_a answer then_a nonce fresh b a psk buf then_b
              host.cookie signed in
          let is_key : pre.secret.public ≡ p.public_of b =
            ap (λ (x : PeerStaticSecret). x.public) tied_a.secret in
          let there = ap (λ r. get_by_index r packet.receiver_index) same_registry ∙ found in
          let known = ap (get_by_key n p alice.peers) is_key ∙ host.known in
          record {
            packet = packet;
            pre = pre;
            mine = mine;
            theirs = answering.session;
            alpha2 = alpha2;
            staged =
                staged-response n p law alice back dst_a answer then_a nonce fresh packet pre
                  host.peer done.parsed valid there known
                ∙ ap
                    (λ k.
                      ok (alice, inbound_staged k back (handshake_response_event packet pre) ∷ []))
                    is_key;
            established = established;
            waits = answering.waits;
            sends = done.sends;
            receives = done.receives;
          }

    -- Under lawful crates, for two devices that know each other, with peers that hold each other's
    -- static keys, one pre-shared key and 32-bit indexes, where the registry of the first is
    -- consistent and its next index is free, and whatever the rest of the two devices holds: where
    -- `start_handshake` of the first peer sends a packet, for which the second device stages an
    -- initiation, which its peer answers, the first device stages the answer for its peer, whose
    -- handler completes the handshake and makes the new session the current one; the session of the
    -- second peer waits in `next`; and each of the two sessions sends under the key and the index
    -- that the other one receives with.
    pub handshake-IsMet :
        alpha.handshake.session_index ≡ alpha.sessions.index
        → IsHeld rest alpha.sessions
        → get_by_index alpha.sessions.index alpha.handshake.session_index.index ≡ none
        → IsTied p law a b psk alpha
        → IsTied p law b a psk beta
        → alpha.endpoint ≡ some to
        → length stamp ≡ 12
        → IsHost p law n b a bob
        → IsHost p law n a b alice
        → alice.peers.sessions ≡ alpha1.sessions.index
        → start_handshake p alpha e stamp now ≡ ok (alpha1, sent to payload ∷ [])
        → tick_inbound n p bob from dst_b payload then_b nonce fresh
          ≡ ok (bob, inbound_staged (p.public_of a) from (handshake_initiation_event inc) ∷ [])
        → handle_handshake_initiation p beta from inc f then_b ≡ ok (beta1, sent from answer ∷ [])
        → IsMet n b alice back dst_a answer then_a nonce fresh system alpha1 beta1
    handshake-IsMet alias held free tied_a tied_b endpoint sized host_b host_a same_registry start
          staged answered =
        let started =
          start_handshake-IsStarted p law rest alpha alpha1 e stamp now (sent to payload ∷ []) alias
            held free start in
        let r =
          received p law n rest a b psk e stamp alpha alpha1 now to payload bob from dst_b then_b
            nonce fresh started tied_a endpoint sized host_b in
        let is_inc : r.inc ≡ inc = initiation_eq (sym r.staged ∙ staged) in
        let index_eq =
          own_index a b psk e stamp alpha.handshake.session_index.index now started.out payload (
            started-sent p law rest a b psk e stamp alpha alpha1 now to payload started tied_a
              endpoint) in
        let shared : IsShared p started.out inc = rw (sym is_inc) r.shared in
        let answering =
          handle_handshake_initiation-IsAnswering p beta beta1 from inc f then_b answer answered in
        met started tied_a tied_b index_eq shared host_a same_registry answering
