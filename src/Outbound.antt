-- ===== src/Outbound.antt =====
-- What a peer sends, vlink-tun/src/device/peer/handler.rs: one round of the handshake loop and of the
-- outbound loop. The clocks, the ephemeral key and the timestamp are arguments.
pub mod Sealed
pub mod Nonces
pub mod Starting
mod Examples
use vlink.Prelude.{
  ℕ, Bool, true, false, List, [], ◌∷◌, ◌++◌, length, Option, none, some, if◌then◌else◌,
}
use vlink.Outcome.{Outcome, ok, err, panic, ◌>>=◌}
use vlink.Protocol.{Error, to_bytes}
use vlink.Noise.Crypto.{Primitives}
use vlink.Sessions.{prepare_uninit}
use vlink.Tunnel.{initiate, encrypt_data}
use vlink.Monitor.{can_handshake}
use vlink.Peer.{
  Peer, Effect, session_failed, send_outbound, keepalive, put_sessions, put_handshake, count_sent,
  mark_initiated,
}

module _ (p : Primitives) where
  -- The handshake packet that the round sends, `initiate` and `prepare_uninit` under their locks.
  unfoldable pub start_handshake : Peer → List ℕ → List ℕ → ℕ → Outcome Error (Peer × List Effect)
  start_handshake peer ephemeral stamp now = do
    sent ← initiate p peer.handshake ephemeral stamp now
    let initiated = put_handshake peer sent.0
    sessions ← prepare_uninit initiated.sessions sent.1
    let waiting = put_sessions initiated sessions
    ok (mark_initiated now waiting, send_outbound waiting sent.2)

  -- A round of `loop_handshake` for a peer that is online.
  unfoldable pub tick_handshake : Peer → List ℕ → List ℕ → ℕ → Outcome Error (Peer × List Effect)
  tick_handshake peer ephemeral stamp now =
      let (monitor, ready) = can_handshake now peer.monitor in
      let checked = record peer { monitor = monitor } in
      if ready then start_handshake checked ephemeral stamp now else ok (checked, [])

  -- `tick_outbound`. The nonce of the current session is used up also where the encryption fails.
  unfoldable pub tick_outbound : Peer → List ℕ → ℕ → Outcome Error (Peer × List Effect)
  tick_outbound peer bytes now = elim peer.sessions.current [
    | none ↦ ok (peer, session_failed peer.pub_key ∷ [])
    | some session ↦
        let (used, result) = encrypt_data p session bytes in
        let moved = record peer { sessions = record peer.sessions { current = some used } } in
        elim result [
          | ok packet ↦ ok (
            count_sent now (length (to_bytes packet)) moved,
            send_outbound moved (to_bytes packet),
          )
          | err e ↦ ok (moved, [])
          | panic ↦ panic
        ]
  ]

  -- The outbound loop over the data that is staged, with the time of each round.
  unfoldable pub send_all : Peer → List (List ℕ × ℕ) → Outcome Error (Peer × List Effect)
  send_all peer [] = ok (peer, [])
  send_all peer ((bytes, now) ∷ rounds) = do
    first ← tick_outbound peer bytes now
    others ← send_all first.0 rounds
    ok (others.0, first.1 ++ others.1)
