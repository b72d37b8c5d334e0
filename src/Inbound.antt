-- ===== src/Inbound.antt =====
-- What a peer does with a packet from the network, vlink-tun/src/device/peer/inbound.rs and the dispatch
-- of device/peer/handler.rs. The clocks, the ephemeral key and the sender's endpoint are arguments.
pub mod Delivery
pub mod Answering
pub mod Progress
mod Examples
use vlink.Prelude.{ℕ, Bool, true, false, List, [], ◌∷◌, if◌then◌else◌}
use vlink.Outcome.{Outcome, ok, err, panic, ◌>>=◌}
use vlink.Protocol.{
  Error, TransportData, HandshakeResponse, CookieReply, packet_len,
  handshake_initiation_packet_size, handshake_response_packet_size, cookie_reply_packet_size,
}
use vlink.Noise.Crypto.{Primitives}
use vlink.Noise.Handshake.{IncomingInitiation}
use vlink.Replay.{can_accept, accept}
use vlink.Sessions.{Session, prepare_next, complete_uninit, complete_next}
use vlink.Tunnel.{respond, finalize, decrypt_data}
use vlink.Monitor.{AtomicTimestamp}
use vlink.Peer.{
  Peer, Effect, sent, delivered, staged, handshake_complete, update_endpoint, put_sessions,
  put_handshake, count, mark_initiated, mark_completed,
}

unfoldable pub handle_cookie_reply : Peer → Peer
handle_cookie_reply peer = count cookie_reply_packet_size peer

-- `InboundEvent`, with the session that the device found for the packet.
pub data InboundEvent : Type 0 where
  handshake_initiation_event : IncomingInitiation → InboundEvent
  handshake_response_event : HandshakeResponse → Session → InboundEvent
  cookie_reply_event : CookieReply → Session → InboundEvent
  transport_data_event : TransportData → Session → InboundEvent

module _ (p : Primitives) where
  -- The response is taken to be sent; where the sender fails, the source panics.
  unfoldable pub handle_handshake_initiation :
      Peer → ℕ → IncomingInitiation → List ℕ → ℕ → Outcome Error (Peer × List Effect)
  handle_handshake_initiation peer endpoint initiation ephemeral now =
      let counted = count handshake_initiation_packet_size peer in
      elim (respond p counted.handshake initiation ephemeral now) [
        | ok (handshake, session, packet) ↦
            let responded = put_handshake counted handshake in
            prepare_next responded.sessions session >>= λ sessions. ok (
              mark_initiated now (update_endpoint (put_sessions responded sessions) endpoint),
              sent endpoint packet ∷ [],
            )
        | err e ↦ ok (counted, [])
        | panic ↦ panic
      ]

  unfoldable pub handle_handshake_response :
      Peer → ℕ → HandshakeResponse → ℕ → AtomicTimestamp → Outcome Error (Peer × List Effect)
  handle_handshake_response peer endpoint packet now system =
      let counted = count handshake_response_packet_size peer in
      elim (finalize p counted.handshake packet now) [
        | ok session ↦ complete_uninit counted.sessions session >>= λ r.
            let known = put_sessions counted r.0 in
            if r.1
            then ok (
              update_endpoint (mark_completed now system known) endpoint,
              handshake_complete peer.pub_key ∷ staged [] ∷ [],
            )
            else ok (known, [])
        | err e ↦ ok (counted, [])
        | panic ↦ panic
      ]

  -- The part of `handle_transport_data` behind `can_accept`: the session and the data for the tun device. A
  -- packet without data is a keepalive.
  unfoldable pub deliver : Session → TransportData → Outcome Error (Session × List Effect)
  deliver session packet = elim (decrypt_data p session packet) [
    | ok [] ↦ ok (session, [])
    | ok (b ∷ bytes) ↦ ok (
      record session { nonce_filter = accept session.nonce_filter packet.counter },
      delivered (b ∷ bytes) ∷ [],
    )
    | err e ↦ ok (session, [])
    | panic ↦ panic
  ]

  -- The part of `handle_transport_data` behind `complete_next`.
  unfoldable pub receive :
      Peer → ℕ → TransportData → Session → Outcome Error (Peer × Session × List Effect)
  receive peer endpoint packet session =
      if can_accept session.nonce_filter packet.counter
      then (deliver session packet >>= λ d. ok (update_endpoint peer endpoint, d.0, d.1))
      else ok (peer, session, [])

  -- The peer, the session, whose filter every copy of it shares, and the effects.
  unfoldable pub handle_transport_data :
      Peer
      → ℕ
      → TransportData
      → Session
      → ℕ
      → AtomicTimestamp
      → Outcome Error (Peer × Session × List Effect)
  handle_transport_data peer endpoint packet session now system =
      complete_next peer.sessions session >>= λ r.
      let known = put_sessions (count (packet_len packet) peer) r.0 in
      receive (if r.1 then mark_completed now system known else known) endpoint packet session

  -- `tick_inbound` of the peer
  unfoldable pub tick_inbound :
      Peer → ℕ → InboundEvent → List ℕ → ℕ → AtomicTimestamp → Outcome Error (Peer × List Effect)
  tick_inbound peer endpoint (handshake_initiation_event initiation) ephemeral now system =
      handle_handshake_initiation peer endpoint initiation ephemeral now
  tick_inbound peer endpoint (handshake_response_event packet session) ephemeral now system =
      handle_handshake_response peer endpoint packet now system
  tick_inbound peer endpoint (cookie_reply_event packet session) ephemeral now system =
      ok (handle_cookie_reply peer, [])
  tick_inbound peer endpoint (transport_data_event packet session) ephemeral now system =
      handle_transport_data peer endpoint packet session now system >>= λ r. ok (r.0, r.2)
