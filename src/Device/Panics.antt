-- ===== src/Device/Panics.antt =====
-- Which payloads make the inbound loop of a device panic.
use vlink.Prelude.{
  ℕ, ◌-◌, take, drop, ◌≤◌, Bool, true, false, List, [], ◌∷◌, length, Option, ◌≡◌, ◌≢◌, ◌↔◌, ◌⊎◌,
  refl, sym, ap, ◌∙◌, inl, inr, Bool-cases, le→leb, arith,
}
use vlink.Outcome.{Outcome-cases, ok_inj, bind-eq-ok, Outcome, ok, err, panic, ◌>>=◌}
use vlink.Bytes.{bytes_eq}
use vlink.Protocol.{
  Error, Message, HandshakeInitiation, handshake_initiation, handshake_response, cookie_reply,
  transport_data, parse, is_handshake,
}
use vlink.Protocol.Layout.{initiation-cases}
use vlink.Protocol.Parse.{IsCutShort, parse-panic_iff, long_of_start}
use vlink.Noise.Crypto.{Primitives, mac}
use vlink.Noise.Cookie.{Cookie, SocketAddr, validate_mac1}
use vlink.Noise.Handshake.{IncomingInitiation, incoming_initiation}
use vlink.Sessions.{Session}
use vlink.Inbound.{InboundEvent}
use vlink.Cidr.{Networks}
use vlink.Device.{
  DeviceInner, Action, for_session, stage_message, dispatch, fetch_token, tick_inbound,
}

ok-ne-panic : {E A : Type 0} {a : A} → ◌≡◌ {A = Outcome E A} (ok a) panic → ⊥
ok-ne-panic h = cc

ok-true-false : ◌≡◌ {A = Outcome Error Bool} (ok true) (ok false) → ⊥
ok-true-false h = cc

bind-ok-panic :
    {E A B : Type 0} (m : Outcome E A) (f : A → B) → (m >>= λ a. ok (f a)) ≡ panic → m ≡ panic
bind-ok-panic (ok a) f h = absurd (ok-ne-panic h)
bind-ok-panic (err e) f h = cc
bind-ok-panic panic f h = refl

-- An initiation is a handshake message, and transport data that is cut short is none.
pub initiation-is_handshake :
    (payload : List ℕ) (packet : HandshakeInitiation)
    → parse payload ≡ ok (handshake_initiation packet)
    → is_handshake payload ≡ ok true
unfolding parse is_handshake
initiation-is_handshake payload packet h = ground (arith, initiation-cases payload)

IsCutShort-is_handshake : (payload : List ℕ) → IsCutShort payload → is_handshake payload ≡ ok false
unfolding is_handshake
IsCutShort-is_handshake payload cut = ground (arith, long_of_start payload cut.start, cut.short)

-- `is_handshake` panics on nothing at all, and says yes only to a long payload.
is_handshake-cases :
    (payload : List ℕ)
    → ((payload ≡ []) × (is_handshake payload ≡ panic))
      ⊎ ((92 ≤ length payload) × (is_handshake payload ≡ ok true))
      ⊎ (is_handshake payload ≡ ok false)
unfolding is_handshake
is_handshake-cases [] = inl (refl, refl)
is_handshake-cases (b ∷ bs) = inr (ground arith)

module _ {Net Table : Type 0} (n : Networks Net Table) (p : Primitives) where
  validate_mac1-cases :
      (cookie : Cookie) (payload : List ℕ)
      → 92 ≤ length payload
      → (validate_mac1 p cookie payload ≡ ok true) ⊎ (validate_mac1 p cookie payload ≡ ok false)
  unfolding validate_mac1
  validate_mac1-cases cookie payload long =
      rw (le→leb 32 (length payload) (omega (arith, long)))
        (elim (Bool-cases (
          bytes_eq (take 16 (drop (length payload - 32) payload))
            (mac p cookie.mac1_hash (take (length payload - 32) payload)))) [
              | inl e ↦ inl (ap ok e)
              | inr e ↦ inr (ap ok e)
            ])

  for_session-ne-panic :
      (inner : DeviceInner Net Table) (endpoint index : ℕ) (event : Session → Option InboundEvent)
      → for_session n p inner endpoint index event ≢ panic
  unfolding for_session
  for_session-ne-panic inner endpoint index event h = ground arith

  -- No initiation comes out of the packet.
  abbrev pub IsUnopened : DeviceInner Net Table → HandshakeInitiation → Type 0
  IsUnopened inner packet =
      (initiation : IncomingInitiation) → incoming_initiation p inner.secret packet ≢ ok initiation

  stage_message-panic :
      (inner : DeviceInner Net Table) (endpoint : ℕ) (message : Message)
      → stage_message n p inner endpoint message ≡ panic
      → (packet : HandshakeInitiation) × (message ≡ handshake_initiation packet)
        × IsUnopened inner packet
  unfolding stage_message
  stage_message-panic inner endpoint (handshake_initiation packet) h =
      (packet, refl, λ initiation opened. ground arith)
  stage_message-panic inner endpoint (handshake_response packet) h =
      absurd (for_session-ne-panic inner endpoint packet.receiver_index _ h)
  stage_message-panic inner endpoint (cookie_reply packet) h =
      absurd (for_session-ne-panic inner endpoint packet.receiver_index _ h)
  stage_message-panic inner endpoint (transport_data packet) h =
      absurd (for_session-ne-panic inner endpoint packet.receiver_index _ h)

  -- What makes the loop panic: a payload of no bytes, transport data that is cut short, and an
  -- initiation under a valid mac that does not open.
  pub data IsCrash (inner : DeviceInner Net Table) (payload : List ℕ) : Type 0 where
    nothing : payload ≡ [] → IsCrash inner payload
    cut_short : IsCutShort payload → IsCrash inner payload
    unopened :
        (packet : HandshakeInitiation)
        → parse payload ≡ ok (handshake_initiation packet)
        → validate_mac1 p inner.cookie payload ≡ ok true
        → IsUnopened inner packet
        → IsCrash inner payload

  dispatch-panic :
      (inner : DeviceInner Net Table) (endpoint : ℕ) (payload : List ℕ)
      → dispatch n p inner endpoint payload ≡ panic
      → IsCutShort payload
        ⊎ ((packet : HandshakeInitiation) × (parse payload ≡ ok (handshake_initiation packet))
            × IsUnopened inner packet)
  unfolding dispatch
  dispatch-panic inner endpoint payload h = elim (Outcome-cases (parse payload)) [
    | inl (message, e) ↦
        let (packet, is_initiation, closed) =
          stage_message-panic inner endpoint message (sym (rw (e, dispatch) refl) ∙ h) in
        inr (packet, e ∙ ap ok is_initiation, closed)
    | inr (inl (x, e)) ↦
        let dropped : dispatch n p inner endpoint payload ≡ ok [] = rw (e, dispatch) refl in
        absurd (ok-ne-panic (sym dropped ∙ h))
    | inr (inr e) ↦ inl ((parse-panic_iff payload).0 e)
  ]

  -- The whole of `tick_inbound` on each of its branches.
  module _ (inner : DeviceInner Net Table) (endpoint : ℕ) (dst : SocketAddr) (payload : List ℕ)
      (now : ℕ) (nonce fresh : List ℕ) where
    abbrev pub tick : Outcome Error (DeviceInner Net Table × List Action)
    tick = tick_inbound n p inner endpoint dst payload now nonce fresh

    abbrev pub passed : Outcome Error (DeviceInner Net Table × List Action)
    passed = dispatch n p inner endpoint payload >>= λ actions. ok (inner, actions)

    tick_inbound-nothing : payload ≡ [] → tick ≡ panic
    unfolding tick_inbound is_handshake
    tick_inbound-nothing e = rw (e, tick_inbound) refl

    tick_inbound-forged :
        is_handshake payload ≡ ok true
        → validate_mac1 p inner.cookie payload ≡ ok false
        → tick ≡ ok (inner, [])
    unfolding tick_inbound
    tick_inbound-forged e f = rw (e, tick_inbound, f) refl

    pub tick_inbound-signed :
        is_handshake payload ≡ ok true
        → validate_mac1 p inner.cookie payload ≡ ok true
        → tick ≡ passed
    unfolding tick_inbound fetch_token
    tick_inbound-signed e f = rw (e, tick_inbound, f) refl

    tick_inbound-plain : is_handshake payload ≡ ok false → tick ≡ passed
    unfolding tick_inbound
    tick_inbound-plain e = rw (e, tick_inbound) refl

    passed-ok :
        (inner' : DeviceInner Net Table) (actions : List Action)
        → passed ≡ ok (inner', actions)
        → (inner' ≡ inner) × ((actions ≡ []) ⊎ (dispatch n p inner endpoint payload ≡ ok actions))
    passed-ok inner' actions h =
        let (found, e, done) = bind-eq-ok (dispatch n p inner endpoint payload) _ h in
        let same = ok_inj done in (sym (ap (λ r. r.0) same), inr (e ∙ ap ok (ap (λ r. r.1) same)))

    passes-panic :
        passed ≡ panic
        → IsCutShort payload
          ⊎ ((packet : HandshakeInitiation) × (parse payload ≡ ok (handshake_initiation packet))
              × IsUnopened inner packet)
    passes-panic h =
        dispatch-panic inner endpoint payload
          (bind-ok-panic (dispatch n p inner endpoint payload) (λ actions. (inner, actions)) h)

    panic-IsCrash : tick ≡ panic → IsCrash inner payload
    panic-IsCrash h = elim (is_handshake-cases payload) [
      | inl (empty, e) ↦ nothing empty
      | inr (inl (long, e)) ↦ elim (validate_mac1-cases inner.cookie payload long) [
        | inl valid ↦ elim (passes-panic (sym (tick_inbound-signed e valid) ∙ h)) [
          | inl cut ↦ cut_short cut
          | inr (packet, parsed, closed) ↦ unopened packet parsed valid closed
        ]
        | inr forged ↦ absurd (ok-ne-panic (sym (tick_inbound-forged e forged) ∙ h))
      ]
      | inr (inr e) ↦ elim (passes-panic (sym (tick_inbound-plain e) ∙ h)) [
        | inl cut ↦ cut_short cut
        | inr (packet, parsed, closed) ↦
            absurd (ok-true-false (sym (initiation-is_handshake payload packet parsed) ∙ e))
      ]
    ]

    dispatch-unopened :
        (packet : HandshakeInitiation)
        → parse payload ≡ ok (handshake_initiation packet)
        → IsUnopened inner packet
        → dispatch n p inner endpoint payload ≡ panic
    unfolding dispatch stage_message
    dispatch-unopened packet parsed closed =
        elim (Outcome-cases (incoming_initiation p inner.secret packet)) [
          | inl (initiation, e) ↦ absurd (closed initiation e)
          | inr (inl (x, e)) ↦ rw (parsed, dispatch, stage_message, e) refl
          | inr (inr e) ↦ rw (parsed, dispatch, stage_message, e) refl
        ]

    IsCrash-panic : IsCrash inner payload → tick ≡ panic
    unfolding dispatch
    IsCrash-panic (nothing e) = tick_inbound-nothing e
    IsCrash-panic (cut_short cut) =
        tick_inbound-plain (IsCutShort-is_handshake payload cut)
        ∙ rw ((parse-panic_iff payload).1 cut, dispatch) refl
    IsCrash-panic (unopened packet parsed valid closed) =
        tick_inbound-signed (initiation-is_handshake payload packet parsed) valid
        ∙ rw (dispatch-unopened packet parsed closed) refl

    -- `tick_inbound` of a device panics exactly on a payload of no bytes, on transport data of less
    -- than 16 bytes, and on an initiation with a valid mac1 that does not open; whatever the clock
    -- and the random bytes are.
    pub tick_inbound-panic_iff : (tick ≡ panic) ↔ IsCrash inner payload
    tick_inbound-panic_iff = (panic-IsCrash, IsCrash-panic)

    -- Where it does not panic, the device is left as it was, and what is staged is what the message leads to.
    pub tick_inbound-ok :
        (inner' : DeviceInner Net Table) (actions : List Action)
        → tick ≡ ok (inner', actions)
        → (inner' ≡ inner) × ((actions ≡ []) ⊎ (dispatch n p inner endpoint payload ≡ ok actions))
    tick_inbound-ok inner' actions h = elim (is_handshake-cases payload) [
      | inl (empty, e) ↦ absurd (ok-ne-panic (sym h ∙ tick_inbound-nothing empty))
      | inr (inl (long, e)) ↦ elim (validate_mac1-cases inner.cookie payload long) [
        | inl valid ↦ passed-ok inner' actions (sym (tick_inbound-signed e valid) ∙ h)
        | inr forged ↦
            let same = ok_inj (sym (tick_inbound-forged e forged) ∙ h) in
            (sym (ap (λ r. r.0) same), inl (sym (ap (λ r. r.1) same)))
      ]
      | inr (inr e) ↦ passed-ok inner' actions (sym (tick_inbound-plain e) ∙ h)
    ]
