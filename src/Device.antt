-- ===== src/Device.antt =====
-- The loops of a device: vlink-tun/src/device/handle.rs with the settings of device/mod.rs and
-- device/rate_limiter.rs. An endpoint is the number of its sender. The clock and the random bytes are
-- arguments.
pub mod Panics
pub mod Staging
pub mod Routing
pub mod Meeting
pub mod Handshake
pub mod Completion
pub mod Loop
mod Examples
mod Parties
use vlink.Prelude.{
  ℕ, ◌/◌, ◌==◌, Bool, true, false, not, List, [], ◌∷◌, length, take, drop, get_or, ltb, Option,
  none, some, if◌then◌else◌,
}
use vlink.Outcome.{Outcome, ok, err, panic, ◌>>=◌, ◌>>◌, in_range}
use vlink.Protocol.{
  Error, Message, handshake_initiation, handshake_response, cookie_reply, transport_data, parse,
  is_handshake, reject_after_messages,
}
use vlink.Noise.Crypto.{Primitives, LocalStaticSecret, local_secret}
use vlink.Noise.Cookie.{
  Cookie, SocketAddr, new_cookie, validate_mac1, validate_mac2, generate_cookie_reply,
}
use vlink.Noise.Handshake.{incoming_initiation}
use vlink.Sessions.{Session}
use vlink.Peer.{Peer, Effect, put_sessions}
use vlink.Inbound.{
  InboundEvent, handshake_initiation_event, handshake_response_event, cookie_reply_event,
  transport_data_event,
}
use vlink.Cidr.{IpAddr, ip_v4, ip_v6, Networks}
use vlink.Peers.{PeerList, PeerEntry, put_entry, get_by_key, get_by_ip, get_session_by_index}

-- The bucket is the bit pattern of an `i16`.
pub record RateLimiter : Type 0 where
  pub tokens : ℕ
  pub bucket : ℕ
  pub last_at : ℕ

unfoldable pub new_limiter : ℕ → ℕ → RateLimiter
new_limiter tokens now = record { tokens = tokens; bucket = tokens; last_at = now }

unfoldable pub fetch_token : RateLimiter → Bool
fetch_token limiter = true

-- `DeviceInner`, with the secret and the cookie of its settings.
pub record DeviceInner (Net Table : Type 0) : Type 0 where
  pub peers : PeerList Net Table
  pub secret : LocalStaticSecret
  pub cookie : Cookie
  pub rate_limiter : RateLimiter

-- An event for a peer's inbound loop with its sender, data for its outbound loop, and a reply.
pub data Action : Type 0 where
  inbound_staged : List ℕ → ℕ → InboundEvent → Action
  outbound_staged : List ℕ → List ℕ → Action
  replied : ℕ → List ℕ → Action

-- The address that a packet of the tun device is for; `none` where the packet is dropped.
unfoldable pub destination : List ℕ → Outcome Error (Option IpAddr)
destination buf = do
  in_range (ltb 0 (length buf))
  let version = get_or buf 0 0 / 16
  ok (
      if version == 4
      then (if ltb (length buf) 20 then none else some (ip_v4 (take 4 (drop 16 buf))))
      else if version == 6
      then (if ltb (length buf) 40 then none else some (ip_v6 (take 16 (drop 24 buf))))
      else none)

module _ {Net Table : Type 0} (n : Networks Net Table) (p : Primitives) where
  -- `Settings::new` and the fields of `Device::new`
  unfoldable pub new_device : PeerList Net Table → List ℕ → ℕ → DeviceInner Net Table
  new_device peers private_key now =
      let secret = local_secret p private_key in
      record {
        peers = peers;
        secret = secret;
        cookie = new_cookie p secret;
        rate_limiter = new_limiter 65535 now;
      }

  -- `tick_outbound` behind the match on the header
  unfoldable pub forward :
      DeviceInner Net Table → List ℕ → Option IpAddr → Outcome Error (List Action)
  forward inner buf none = ok []
  forward inner buf (some ip) = elim (get_by_ip n p inner.peers ip) [
    | none ↦ ok []
    | some key ↦ ok (outbound_staged key buf ∷ [])
  ]

  unfoldable pub tick_outbound : DeviceInner Net Table → List ℕ → Outcome Error (List Action)
  tick_outbound inner buf = destination buf >>= forward inner buf

  -- The session of an index and its peer: an event for them, if there is one.
  unfoldable pub for_session :
      DeviceInner Net Table → ℕ → ℕ → (Session → Option InboundEvent) → Outcome Error (List Action)
  for_session inner endpoint index event = elim (get_session_by_index n p inner.peers index) [
    | none ↦ ok []
    | some (session, peer) ↦ elim (event session) [
      | none ↦ ok []
      | some e ↦ ok (inbound_staged session.secret.public endpoint e ∷ [])
    ]
  ]

  unfoldable pub stage_message : DeviceInner Net Table → ℕ → Message → Outcome Error (List Action)
  stage_message inner endpoint (handshake_initiation packet) =
      elim (incoming_initiation p inner.secret packet) [
        | ok initiation ↦ elim (get_by_key n p inner.peers initiation.static_public_key) [
          | none ↦ ok []
          | some peer ↦
              let event = handshake_initiation_event initiation in
              ok (inbound_staged initiation.static_public_key endpoint event ∷ [])
        ]
        | err e ↦ panic
        | panic ↦ panic
      ]
  stage_message inner endpoint (handshake_response packet) =
      for_session inner endpoint packet.receiver_index
        (λ s. some (handshake_response_event packet s))
  stage_message inner endpoint (cookie_reply packet) =
      for_session inner endpoint packet.receiver_index (λ s. some (cookie_reply_event packet s))
  stage_message inner endpoint (transport_data packet) =
      for_session inner endpoint packet.receiver_index (λ s.
        if ltb reject_after_messages packet.counter
        then none
        else some (transport_data_event packet s))

  -- `tick_inbound` behind its guards
  unfoldable pub dispatch : DeviceInner Net Table → ℕ → List ℕ → Outcome Error (List Action)
  dispatch inner endpoint payload = elim (parse payload) [
    | ok message ↦ stage_message inner endpoint message
    | err e ↦ ok []
    | panic ↦ panic
  ]

  -- The reply to a handshake message where the limiter has no token.
  unfoldable pub reply_cookie :
      DeviceInner Net Table
      → ℕ
      → SocketAddr
      → List ℕ
      → ℕ
      → List ℕ
      → List ℕ
      → Outcome Error (DeviceInner Net Table × List Action)
  reply_cookie inner endpoint dst payload now nonce fresh =
      validate_mac2 p inner.cookie payload >>= λ valid.
      if not valid
      then ok (inner, [])
      else (generate_cookie_reply p inner.cookie payload dst now nonce fresh >>= λ made.
          ok (record inner { cookie = made.0 }, replied endpoint made.1 ∷ []))

  -- `tick_inbound`, with the address of the sender.
  unfoldable pub tick_inbound :
      DeviceInner Net Table
      → ℕ
      → SocketAddr
      → List ℕ
      → ℕ
      → List ℕ
      → List ℕ
      → Outcome Error (DeviceInner Net Table × List Action)
  tick_inbound inner endpoint dst payload now nonce fresh =
      let passed = dispatch inner endpoint payload >>= λ actions. ok (inner, actions) in
      is_handshake payload >>= λ handshake.
      if not handshake
      then passed
      else (validate_mac1 p inner.cookie payload >>= λ valid.
          if not valid
          then ok (inner, [])
          else if not (fetch_token inner.rate_limiter)
          then reply_cookie inner endpoint dst payload now nonce fresh
          else passed)
