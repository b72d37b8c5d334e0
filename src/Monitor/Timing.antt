-- ===== src/Monitor/Timing.antt =====
-- When a peer may start a handshake, and when it sends a keepalive.
use vlink.Prelude.{
  ℕ, ◌+◌, ◌*◌, ◌^◌, ◌≤◌, ◌<◌, false, none, leb, ◌≡◌, refl, ◌∙◌, List, [], ◌∷◌, arith,
}
use vlink.Monitor.{
  nanos_per_milli, rekey_after_messages, rekey_after_time, rekey_timeout, AtomicInstant,
  AtomicTimestamp, from_std, set_now, to_std, elapsed, initiated, reset_attempt, completed,
  TrafficMonitor, new_traffic, outbound, inbound, KeepAliveMonitor, persistent, next_attempt_in,
  can, PeerMonitor, can_handshake,
}

-- `set_now` rounds down to a millisecond, as long as the clock fits.
pub set_now-near :
    (t : AtomicInstant) (now : ℕ)
    → t.epoch ≤ now
    → now < t.epoch + nanos_per_milli * 2 ^ 64
    → (to_std (set_now now t) ≤ now) × (now < to_std (set_now now t) + nanos_per_milli)
unfolding set_now to_std
set_now-near t now ran fits = (omega arith, omega arith)

module _ (m : PeerMonitor) (at now : ℕ) where
  -- Within five seconds of an initiation, less the millisecond of rounding, `can_handshake` is
  -- false, where less than 2 ^ 60 messages were sent and the time since the epoch fits 64 bits of
  -- milliseconds.
  pub initiated-can_handshake :
      m.handshake.last_attempt_at.epoch ≤ at
      → at < m.handshake.last_attempt_at.epoch + nanos_per_milli * 2 ^ 64
      → m.traffic.tx_messages < rekey_after_messages
      → now + nanos_per_milli ≤ at + rekey_timeout
      → (can_handshake now (record m { handshake = initiated at m.handshake })).1 ≡ false
  unfolding can_handshake initiated elapsed reset_attempt
  initiated-can_handshake ran fits few soon =
      ground (arith, set_now-near m.handshake.last_attempt_at at ran fits)

  module _ (system : AtomicTimestamp) (ran : m.handshake.last_complete_at.epoch ≤ at)
      (fits : at < m.handshake.last_complete_at.epoch + nanos_per_milli * 2 ^ 64)
      (few : m.traffic.tx_messages < rekey_after_messages) where
    -- For two minutes after a completed handshake, less the millisecond of rounding, `can_handshake`
    -- is false, where less than 2 ^ 60 messages were sent and the time since the epoch fits 64 bits
    -- of milliseconds.
    pub completed-can_handshake :
        now + nanos_per_milli ≤ at + rekey_after_time
        → (can_handshake now (record m { handshake = completed at system m.handshake })).1 ≡ false
    unfolding can_handshake completed elapsed reset_attempt
    completed-can_handshake soon =
        ground (arith, set_now-near m.handshake.last_complete_at at ran fits)

    -- From two minutes after a completed handshake on, `can_handshake` is true exactly where the
    -- last attempt lies five seconds back, where less than 2 ^ 60 messages were sent and the time
    -- since the epoch fits 64 bits of milliseconds.
    pub expired-can_handshake :
        at + rekey_after_time ≤ now
        → (can_handshake now (record m { handshake = completed at system m.handshake })).1
          ≡ leb rekey_timeout (elapsed now m.handshake.last_attempt_at)
    unfolding can_handshake completed elapsed reset_attempt
    expired-can_handshake late =
        ground (arith, set_now-near m.handshake.last_complete_at at ran fits)

-- What the monitor of the traffic is told: a packet of some bytes, sent at a time or received.
pub data Event : Type 0 where
  sent : ℕ → ℕ → Event
  received : ℕ → Event

unfoldable pub record_all : TrafficMonitor → List Event → TrafficMonitor
record_all t [] = t
record_all t (sent now bytes ∷ es) = record_all (outbound now bytes t) es
record_all t (received bytes ∷ es) = record_all (inbound bytes t) es

quiet :
    (t : TrafficMonitor) (es : List Event)
    → to_std t.last_recv_at ≤ t.last_sent_at.epoch
    → to_std (record_all t es).last_recv_at ≤ to_std (record_all t es).last_sent_at
unfolding record_all outbound inbound set_now to_std
quiet t [] h = omega (arith, h)
quiet t (sent now bytes ∷ es) h = quiet (outbound now bytes t) es h
quiet t (received bytes ∷ es) h = quiet (inbound bytes t) es h

next-persistent :
    (now : ℕ) (k : KeepAliveMonitor) (t : TrafficMonitor)
    → to_std t.last_recv_at ≤ to_std t.last_sent_at
    → next_attempt_in now k t ≡ persistent now k
unfolding next_attempt_in
next-persistent now k t h = ground (arith, h)

persistent-late :
    (now : ℕ) (k : KeepAliveMonitor)
    → k.persistent_keepalive_interval ≡ none
    → persistent now k ≡ now + rekey_after_time
unfolding persistent
persistent-late now k never = rw (never, persistent) refl

-- Whatever was sent and received since the start, `can` is false for a peer without a persistent
-- keepalive interval.
pub can-record_all :
    (start now : ℕ) (k : KeepAliveMonitor) (es : List Event)
    → k.persistent_keepalive_interval ≡ none
    → can now k (record_all (new_traffic start) es) ≡ false
unfolding can new_traffic from_std to_std
can-record_all start now k es never =
    let q = quiet (new_traffic start) es (omega arith) in
    let e =
      next-persistent now k (record_all (new_traffic start) es) q ∙ persistent-late now k never in
    rw (e) (ground arith)
