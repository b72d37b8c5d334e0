-- ===== src/Device/Staging.antt =====
-- What the inbound loop of a device stages for its peers.
use vlink.Prelude.{
  ℕ, ◌≤◌, List, [], ◌∷◌, ltb, Option, none, some, if◌then◌else◌, ◌≡◌, refl, sym, ap, ◌∙◌, inl, inr,
  Option-cases, arith,
}
use vlink.Outcome.{Outcome-cases, Outcome, ok, panic}
use vlink.Protocol.{
  Error, Message, TransportData, HandshakeResponse, CookieReply, handshake_initiation,
  handshake_response, cookie_reply, transport_data, parse, reject_after_messages,
}
use vlink.Noise.Crypto.{Primitives}
use vlink.Noise.Cookie.{SocketAddr}
use vlink.Sessions.{Session, get_by_index}
use vlink.Peer.{Peer}
use vlink.Inbound.{InboundEvent, handshake_response_event, cookie_reply_event, transport_data_event}
use vlink.Cidr.{Networks}
use vlink.Peers.{get_session_by_index, get_by_key}
use vlink.Device.{
  DeviceInner, Action, inbound_staged, for_session, stage_message, dispatch, tick_inbound,
}
use vlink.Device.Panics.{tick_inbound-ok}

none-staged :
    {a : Action} {rest : List Action}
    → ◌≡◌ {A = Outcome Error (List Action)} (ok []) (ok (a ∷ rest))
    → ⊥
none-staged h = cc

panic-staged : {a : List Action} → ◌≡◌ {A = Outcome Error (List Action)} panic (ok a) → ⊥
panic-staged h = cc

staged_eq :
    {key k : List ℕ} {e i : ℕ} {event ev : InboundEvent} {rest others : List Action}
    → ◌≡◌ {A = Outcome Error (List Action)}
        (ok (inbound_staged key e event ∷ rest))
        (ok (inbound_staged k i ev ∷ others))
    → (key ≡ k) × (e ≡ i) × (event ≡ ev)
staged_eq h = (cc, cc, cc)

response-data :
    {q : HandshakeResponse} {packet : TransportData} {s t : Session}
    → ◌≡◌ {A = Option InboundEvent}
        (some (handshake_response_event q s))
        (some (transport_data_event packet t))
    → ⊥
response-data h = cc

reply-data :
    {q : CookieReply} {packet : TransportData} {s t : Session}
    → ◌≡◌ {A = Option InboundEvent}
        (some (cookie_reply_event q s))
        (some (transport_data_event packet t))
    → ⊥
reply-data h = cc

data_eq :
    {q packet : TransportData} {s t : Session}
    → (◌≡◌ {A = InboundEvent} (transport_data_event q s) (transport_data_event packet t))
    → (q ≡ packet) × (s ≡ t)
data_eq h = (cc, cc)

kept :
    (limit : ℕ) (q : TransportData) (s : Session) (ev : InboundEvent)
    → (if ltb limit q.counter then none else some (transport_data_event q s)) ≡ some ev
    → (q.counter ≤ limit) × (transport_data_event q s ≡ ev)
kept limit q s ev h = ground arith

module _ {Net Table : Type 0} (n : Networks Net Table) (p : Primitives) where
  -- The session that an index is registered for belongs to the peer.
  pub record IsMeant (inner : DeviceInner Net Table) (packet : TransportData) (session : Session)
      (key : List ℕ) : Type 0 where
    pub registered : get_by_index inner.peers.sessions packet.receiver_index ≡ some session
    pub owner : key ≡ session.secret.public
    pub peer : Peer
    pub known : get_by_key n p inner.peers key ≡ some peer
    pub few : packet.counter ≤ reject_after_messages

  module _ (inner : DeviceInner Net Table) (endpoint index : ℕ)
      (event : Session → Option InboundEvent) where
    for_session-unknown :
        get_by_index inner.peers.sessions index ≡ none
        → for_session n p inner endpoint index event ≡ ok []
    unfolding for_session get_session_by_index
    for_session-unknown e = rw (e, for_session, get_session_by_index) refl

    for_session-orphan :
        (s : Session)
        → get_by_index inner.peers.sessions index ≡ some s
        → get_by_key n p inner.peers s.secret.public ≡ none
        → for_session n p inner endpoint index event ≡ ok []
    unfolding for_session get_session_by_index
    for_session-orphan s e f = rw (e, for_session, get_session_by_index, f) refl

    for_session-dropped :
        (s : Session) (peer : Peer)
        → get_by_index inner.peers.sessions index ≡ some s
        → get_by_key n p inner.peers s.secret.public ≡ some peer
        → event s ≡ none
        → for_session n p inner endpoint index event ≡ ok []
    unfolding for_session get_session_by_index
    for_session-dropped s peer e f g = rw (e, for_session, get_session_by_index, f, g) refl

    pub for_session-staged :
        (s : Session) (peer : Peer) (ev : InboundEvent)
        → get_by_index inner.peers.sessions index ≡ some s
        → get_by_key n p inner.peers s.secret.public ≡ some peer
        → event s ≡ some ev
        → for_session n p inner endpoint index event
          ≡ ok (inbound_staged s.secret.public endpoint ev ∷ [])
    unfolding for_session get_session_by_index
    for_session-staged s peer ev e f g = rw (e, for_session, get_session_by_index, f, g) refl

    for_session-IsMeant :
        (e : ℕ) (key : List ℕ) (staged : InboundEvent) (rest : List Action)
        → for_session n p inner endpoint index event ≡ ok (inbound_staged key e staged ∷ rest)
        → (session : Session) × (peer : Peer) × (event session ≡ some staged)
          × (get_by_index inner.peers.sessions index ≡ some session)
          × (get_by_key n p inner.peers session.secret.public ≡ some peer)
          × (key ≡ session.secret.public)
    for_session-IsMeant e key staged rest h =
        elim (Option-cases (get_by_index inner.peers.sessions index)) [
          | inl a ↦ absurd (none-staged (sym (for_session-unknown a) ∙ h))
          | inr (s, a) ↦ elim (Option-cases (get_by_key n p inner.peers s.secret.public)) [
            | inl b ↦ absurd (none-staged (sym (for_session-orphan s a b) ∙ h))
            | inr (peer, b) ↦ elim (Option-cases (event s)) [
              | inl c ↦ absurd (none-staged (sym (for_session-dropped s peer a b c) ∙ h))
              | inr (ev, c) ↦
                  let same = staged_eq (sym (for_session-staged s peer ev a b c) ∙ h) in
                  (s, peer, c ∙ ap some same.2, a, b, sym same.0)
            ]
          ]
        ]

  stage_message-data :
      (inner : DeviceInner Net Table) (endpoint e : ℕ) (message : Message) (key : List ℕ)
      (packet : TransportData) (session : Session) (rest : List Action)
      → stage_message n p inner endpoint message
        ≡ ok (inbound_staged key e (transport_data_event packet session) ∷ rest)
      → (message ≡ transport_data packet) × IsMeant inner packet session key
  unfolding stage_message
  stage_message-data inner endpoint e (handshake_initiation q) key packet session rest h =
      absurd (ground arith)
  stage_message-data inner endpoint e (handshake_response q) key packet session rest h =
      let found = for_session-IsMeant inner endpoint q.receiver_index _ e key _ rest h in
      absurd (response-data found.2)
  stage_message-data inner endpoint e (cookie_reply q) key packet session rest h =
      let found = for_session-IsMeant inner endpoint q.receiver_index _ e key _ rest h in
      absurd (reply-data found.2)
  stage_message-data inner endpoint e (transport_data q) key packet session rest h =
      let (s, peer, made, there, known, is_key) =
        for_session-IsMeant inner endpoint q.receiver_index _ e key _ rest h in
      let (few, same) = kept reject_after_messages q s (transport_data_event packet session) made in
      let (is_packet, is_session) = data_eq same in
      (
        ap transport_data is_packet,
        record {
          registered =
              ap (λ (r : TransportData). get_by_index inner.peers.sessions r.receiver_index)
                (sym is_packet)
              ∙ there
              ∙ ap some is_session;
          owner = is_key ∙ ap (λ (t : Session). t.secret.public) is_session;
          peer = peer;
          known = ap (get_by_key n p inner.peers) is_key ∙ known;
          few = rw (sym is_packet) few;
        },
      )

  dispatch-data :
      (inner : DeviceInner Net Table) (endpoint e : ℕ) (payload : List ℕ) (key : List ℕ)
      (packet : TransportData) (session : Session) (rest : List Action)
      → dispatch n p inner endpoint payload
        ≡ ok (inbound_staged key e (transport_data_event packet session) ∷ rest)
      → (parse payload ≡ ok (transport_data packet)) × IsMeant inner packet session key
  unfolding dispatch
  dispatch-data inner endpoint e payload key packet session rest h =
      elim (Outcome-cases (parse payload)) [
        | inl (message, parsed) ↦
            let opened : dispatch n p inner endpoint payload
                ≡ stage_message n p inner endpoint message =
              rw (parsed, dispatch) refl in
            let (is_data, meant) =
              stage_message-data inner endpoint e message key packet session rest
                (sym opened ∙ h) in
            (parsed ∙ ap ok is_data, meant)
        | inr (inl (x, refused)) ↦
            let dropped : dispatch n p inner endpoint payload ≡ ok [] =
              rw (refused, dispatch) refl in
            absurd (none-staged (sym dropped ∙ h))
        | inr (inr broken) ↦
            let stopped : dispatch n p inner endpoint payload ≡ panic =
              rw (broken, dispatch) refl in
            absurd (panic-staged (sym stopped ∙ h))
      ]

  -- Where `tick_inbound` of a device stages transport data for a peer first: the payload parses to
  -- that packet, its counter is at most REJECT_AFTER_MESSAGES, its index is registered for the
  -- session that goes with it, and the peer is known and has the key of the session.
  pub tick_inbound-IsMeant :
      (inner inner' : DeviceInner Net Table) (endpoint e : ℕ) (dst : SocketAddr) (payload : List ℕ)
      (now : ℕ) (nonce fresh key : List ℕ) (packet : TransportData) (session : Session)
      (rest : List Action)
      → tick_inbound n p inner endpoint dst payload now nonce fresh
        ≡ ok (inner', inbound_staged key e (transport_data_event packet session) ∷ rest)
      → (parse payload ≡ ok (transport_data packet)) × IsMeant inner packet session key
  tick_inbound-IsMeant inner inner' endpoint e dst payload now nonce fresh key packet session rest
        h =
      elim (tick_inbound-ok n p inner endpoint dst payload now nonce fresh inner' _ h).1 [
        | inl dropped ↦ absurd (none-staged (ap ok (sym dropped)))
        | inr done ↦ dispatch-data inner endpoint e payload key packet session rest done
      ]
