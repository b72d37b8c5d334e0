-- ===== src/Device/Meeting.antt =====
-- A handshake between two devices, from the round that starts it to the sessions on both sides.
use vlink.Prelude.{ℕ, ◌<◌, ◌^◌, true, List, [], ◌∷◌, length, some, ◌≡◌, refl, ap, ◌∙◌, arith}
use vlink.Outcome.{Outcome, ok}
use vlink.Protocol.{
  Error, HandshakeInitiation, HandshakeResponse, handshake_initiation, handshake_response, parse,
  is_handshake,
}
use vlink.Protocol.Layout.{response-cases}
use vlink.Noise.Crypto.{Primitives, local_secret}
use vlink.Noise.Cookie.{SocketAddr, mac_generator, new_cookie, validate_mac1}
use vlink.Noise.Handshake.{
  OutgoingInitiation, IncomingInitiation, outgoing_initiation, incoming_initiation, with_macs,
}
use vlink.Noise.Laws.{IsLawful}
use vlink.Noise.Agreement.{secret_towards, initiation-agrees}
use vlink.Noise.Agreement
use vlink.Noise.Macs.{validate_mac1-with_macs}
use vlink.Noise.Reply.{IsShared}
use vlink.Sessions.{Session, get_by_index}
use vlink.Peer.{Peer}
use vlink.Inbound.{handshake_initiation_event, handshake_response_event}
use vlink.Cidr.{Networks}
use vlink.Peers.{get_by_key}
use vlink.Device.{DeviceInner, Action, inbound_staged, stage_message, dispatch, tick_inbound}
use vlink.Device.Panics.{initiation-is_handshake, tick_inbound-signed}
use vlink.Device.Staging.{for_session-staged}

pub response-is_handshake :
    (payload : List ℕ) (packet : HandshakeResponse)
    → parse payload ≡ ok (handshake_response packet)
    → is_handshake payload ≡ ok true
unfolding parse is_handshake
response-is_handshake payload packet h = ground (arith, response-cases payload)

module _ {Net Table : Type 0} (n : Networks Net Table) (p : Primitives) (law : IsLawful p)
    (inner : DeviceInner Net Table) (endpoint : ℕ) (dst : SocketAddr) (payload : List ℕ) (now : ℕ)
    (nonce fresh : List ℕ) where
  abbrev tick : Outcome Error (DeviceInner Net Table × List Action)
  tick = tick_inbound n p inner endpoint dst payload now nonce fresh

  -- A message that was signed for the device gets past its guards.
  pub signed-valid :
      (a b psk buf : List ℕ) (before : ℕ)
      → inner.cookie ≡ new_cookie p (local_secret p b)
      → payload ≡ with_macs p (mac_generator p (secret_towards p a b psk)) before buf
      → validate_mac1 p inner.cookie payload ≡ ok true
  unfolding local_secret
  signed-valid a b psk buf before cookie signed =
      ap (λ c. validate_mac1 p c payload) cookie
      ∙ ap (validate_mac1 p (new_cookie p (local_secret p b))) signed
      ∙ validate_mac1-with_macs p law (local_secret p b) (secret_towards p a b psk) before buf refl

  staged-initiation :
      (packet : HandshakeInitiation) (inc : IncomingInitiation) (peer : Peer)
      → parse payload ≡ ok (handshake_initiation packet)
      → validate_mac1 p inner.cookie payload ≡ ok true
      → incoming_initiation p inner.secret packet ≡ ok inc
      → get_by_key n p inner.peers inc.static_public_key ≡ some peer
      → tick
        ≡ ok (
          inner,
          inbound_staged inc.static_public_key endpoint (handshake_initiation_event inc) ∷ [],
        )
  unfolding dispatch stage_message
  staged-initiation packet inc peer parsed valid opened known =
      tick_inbound-signed n p inner endpoint dst payload now nonce fresh
        (initiation-is_handshake payload packet parsed) valid
      ∙ rw (parsed, dispatch, stage_message, opened, known) refl

  pub staged-response :
      (packet : HandshakeResponse) (s : Session) (peer : Peer)
      → parse payload ≡ ok (handshake_response packet)
      → validate_mac1 p inner.cookie payload ≡ ok true
      → get_by_index inner.peers.sessions packet.receiver_index ≡ some s
      → get_by_key n p inner.peers s.secret.public ≡ some peer
      → tick
        ≡ ok (
          inner,
          inbound_staged s.secret.public endpoint (handshake_response_event packet s) ∷ [],
        )
  unfolding dispatch stage_message
  staged-response packet s peer parsed valid found known =
      tick_inbound-signed n p inner endpoint dst payload now nonce fresh
        (response-is_handshake payload packet parsed) valid
      ∙ rw
          (
            parsed,
            dispatch,
            stage_message,
            for_session-staged n p inner endpoint packet.receiver_index
                (λ t. some (handshake_response_event packet t)) s peer
                (handshake_response_event packet s) found known refl,
          )
          refl

  -- What the device of the responder stages for a message that `OutgoingInitiation::new` made.
  pub record IsReceived (a : List ℕ) (out : OutgoingInitiation) : Type 0 where
    pub inc : IncomingInitiation
    pub shared : IsShared p out inc
    pub static_eq : inc.static_public_key ≡ p.public_of a
    pub staged :
        tick
        ≡ ok (inner, inbound_staged (p.public_of a) endpoint (handshake_initiation_event inc) ∷ [])

  pub initiation-IsReceived :
      (a b psk e stamp : List ℕ) (index before : ℕ) (out : OutgoingInitiation) (known : Peer)
      → inner.secret ≡ local_secret p b
      → inner.cookie ≡ new_cookie p (local_secret p b)
      → get_by_key n p inner.peers (p.public_of a) ≡ some known
      → outgoing_initiation p index
          (secret_towards p a b psk)
          (mac_generator p (secret_towards p a b psk))
          e
          stamp
          before
        ≡ ok (out, payload)
      → index < 256 ^ 4
      → length stamp ≡ 12
      → IsReceived a out
  initiation-IsReceived a b psk e stamp index before out known secret cookie peer made index_u32
        sized =
      let macs = mac_generator p (secret_towards p a b psk) in
      let (packet, inc, agreed) =
        initiation-agrees p law a b psk e stamp index before macs out payload made index_u32
          sized in
      let (x, y, sent) =
        Agreement.outgoing-IsSent p a b e index macs stamp before psk out payload made in
      let valid =
        signed-valid a b psk (Agreement.written p a b e index x y) before cookie sent.bytes in
      let opened = ap (λ s. incoming_initiation p s packet) secret ∙ agreed.opened in
      let found = ap (get_by_key n p inner.peers) agreed.static_eq ∙ peer in
      record {
        inc = inc;
        shared = record {
          index_eq = agreed.index_eq;
          hash_eq = agreed.hash_eq;
          chaining_key_eq = agreed.chaining_key_eq;
          ephemeral_eq = agreed.ephemeral_eq;
        };
        static_eq = agreed.static_eq;
        staged =
            staged-initiation packet inc known agreed.parsed valid opened found
            ∙ ap (λ k. ok (inner, inbound_staged k endpoint (handshake_initiation_event inc) ∷ []))
                agreed.static_eq;
      }
