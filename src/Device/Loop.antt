-- ===== src/Device/Loop.antt =====
-- The inbound loop of a device, `loop_inbound` of vlink-tun/src/device/handle.rs, over what the transports
-- hand it. What the other tasks do to the device before a tick is a function, and so are the clock, the
-- random bytes and the number of a sender.
use vlink.Prelude.{ℕ, suc, List, [], ◌∷◌, ◌++◌, ◌≡◌, ◌≢◌, refl, inl, inr, arith, Option, sym, ◌∙◌}
use vlink.Outcome.{Outcome, ok, err, panic, ◌>>=◌, Outcome-cases}
use vlink.Protocol.{
  Error, Message, handshake_initiation, handshake_response, cookie_reply, transport_data, parse,
  is_handshake,
}
use vlink.Noise.Crypto.{Primitives}
use vlink.Noise.Cookie.{SocketAddr, validate_mac1}
use vlink.Sessions.{Session}
use vlink.Inbound.{InboundEvent}
use vlink.Cidr.{Networks}
use vlink.Device.{
  DeviceInner, Action, for_session, stage_message, dispatch, fetch_token, tick_inbound,
}
use vlink.Device.Panics.{nothing, tick_inbound-panic_iff}

-- The time and the random bytes of a tick.
pub record Surroundings (Net Table : Type 0) : Type 0 where
  pub others : ℕ → DeviceInner Net Table → DeviceInner Net Table
  pub sender : SocketAddr → ℕ
  pub now : ℕ → ℕ
  pub nonce : ℕ → List ℕ
  pub fresh : ℕ → List ℕ

ok-ne-err : {A : Type 0} {a : A} {e : Error} → ◌≡◌ {A = Outcome Error A} (ok a) (err e) → ⊥
ok-ne-err h = cc

panic-ne-err : {A : Type 0} {e : Error} → ◌≡◌ {A = Outcome Error A} panic (err e) → ⊥
panic-ne-err h = cc

module _ {Net Table : Type 0} (n : Networks Net Table) (p : Primitives)
    (around : Surroundings Net Table) where
  unfoldable pub loop_inbound :
      ℕ
      → DeviceInner Net Table
      → List (SocketAddr × List ℕ)
      → Outcome Error (DeviceInner Net Table × List Action)
  loop_inbound step inner [] = ok (inner, [])
  loop_inbound step inner ((addr, bytes) ∷ received) =
      tick_inbound n p (around.others step inner) (around.sender addr) addr bytes (around.now step)
        (around.nonce step) (around.fresh step)
      >>= λ done. loop_inbound (suc step) done.0 received >>= λ rest. ok (rest.0, done.1 ++ rest.1)

  -- A tick returns or panics.
  abbrev IsRun : {A : Type 0} → Outcome Error A → Type 0
  IsRun o = (e : Error) → o ≢ err e

  for_session-IsRun :
      (inner : DeviceInner Net Table) (endpoint index : ℕ) (event : Session → Option InboundEvent)
      → IsRun (for_session n p inner endpoint index event)
  unfolding for_session
  for_session-IsRun inner endpoint index event e h = ground arith

  stage_message-IsRun :
      (inner : DeviceInner Net Table) (endpoint : ℕ) (message : Message)
      → IsRun (stage_message n p inner endpoint message)
  unfolding stage_message
  stage_message-IsRun inner endpoint (handshake_initiation packet) e h = ground arith
  stage_message-IsRun inner endpoint (handshake_response packet) e h =
      for_session-IsRun inner endpoint packet.receiver_index _ e h
  stage_message-IsRun inner endpoint (cookie_reply packet) e h =
      for_session-IsRun inner endpoint packet.receiver_index _ e h
  stage_message-IsRun inner endpoint (transport_data packet) e h =
      for_session-IsRun inner endpoint packet.receiver_index _ e h

  dispatch-IsRun :
      (inner : DeviceInner Net Table) (endpoint : ℕ) (payload : List ℕ)
      → IsRun (dispatch n p inner endpoint payload)
  unfolding dispatch
  dispatch-IsRun inner endpoint payload e h = elim (Outcome-cases (parse payload)) [
    | inl (message, f) ↦
        stage_message-IsRun inner endpoint message e (sym (rw (dispatch, f) refl) ∙ h)
    | inr (inl (x, f)) ↦ ok-ne-err {a = []} (sym (rw (dispatch, f) refl) ∙ h)
    | inr (inr f) ↦ panic-ne-err (sym (rw (dispatch, f) refl) ∙ h)
  ]

  tick_inbound-IsRun :
      (inner : DeviceInner Net Table) (endpoint : ℕ) (dst : SocketAddr) (payload : List ℕ) (now : ℕ)
      (nonce fresh : List ℕ)
      → IsRun (tick_inbound n p inner endpoint dst payload now nonce fresh)
  unfolding tick_inbound fetch_token is_handshake validate_mac1
  tick_inbound-IsRun inner endpoint dst payload now nonce fresh e h =
      ground (arith, dispatch-IsRun inner endpoint payload e)

  -- Where one of the payloads that the loop is handed has no bytes, the loop ends in a panic, whatever
  -- the device, the other payloads, the clock and the other tasks are.
  pub loop_inbound-panics :
      (step : ℕ) (inner : DeviceInner Net Table) (before after : List (SocketAddr × List ℕ))
      (addr : SocketAddr)
      → loop_inbound step inner (before ++ (addr, []) ∷ after) ≡ panic
  unfolding loop_inbound
  loop_inbound-panics step inner [] after addr =
      rw
        (
          (tick_inbound-panic_iff n p (around.others step inner) (around.sender addr) addr []
                (around.now step) (around.nonce step) (around.fresh step)).1
              (nothing refl),
          loop_inbound,
        )
        refl
  loop_inbound-panics step inner ((from, bytes) ∷ before) after addr =
      let tick =
        tick_inbound n p (around.others step inner) (around.sender from) from bytes
          (around.now step) (around.nonce step) (around.fresh step) in
      elim (Outcome-cases tick) [
        | inl (done, e) ↦
            rw (e, loop_inbound, loop_inbound-panics (suc step) done.0 before after addr) refl
        | inr (inl (x, e)) ↦ absurd (
            tick_inbound-IsRun (around.others step inner) (around.sender from) from bytes
              (around.now step) (around.nonce step) (around.fresh step) x e)
        | inr (inr e) ↦ rw (e, loop_inbound) refl
      ]
