-- ===== src/Monitor.antt =====
-- The timers of a peer, vlink-tun/src/device/time.rs and device/peer/monitor.rs. Instants are
-- nanoseconds of one monotonic clock, and the current time `now` is an argument; durations are
-- nanoseconds. An atomic is its value.
pub mod Timing
mod Examples
use vlink.Prelude.{
  ℕ, ◌+◌, ◌-◌, ◌*◌, ◌/◌, ◌%◌, ◌^◌, Bool, true, false, ◌&&◌, ◌||◌, not, Option, none, some, ltb, leb,
  if◌then◌else◌,
}

abbrev pub nanos_per_sec : ℕ
nanos_per_sec = 1000000000

abbrev pub nanos_per_milli : ℕ
nanos_per_milli = 1000000

abbrev pub rekey_after_messages : ℕ
rekey_after_messages = 2 ^ 60

abbrev pub rekey_after_time : ℕ
rekey_after_time = 120 * nanos_per_sec

abbrev pub reject_after_time : ℕ
reject_after_time = 180 * nanos_per_sec

abbrev pub rekey_attempt_time : ℕ
rekey_attempt_time = 90 * nanos_per_sec

abbrev pub rekey_timeout : ℕ
rekey_timeout = 5 * nanos_per_sec

abbrev pub keepalive_timeout : ℕ
keepalive_timeout = 10 * nanos_per_sec

-- `AtomicInstant`; `d` counts milliseconds.
pub record AtomicInstant : Type 0 where
  pub epoch : ℕ
  pub d : ℕ

unfoldable pub from_std : ℕ → AtomicInstant
from_std epoch = record { epoch = epoch; d = 0 }

-- `epoch.elapsed()` is 0 where the epoch lies ahead.
unfoldable pub set_now : ℕ → AtomicInstant → AtomicInstant
set_now now t = record t { d = (now - t.epoch) / nanos_per_milli % 2 ^ 64 }

unfoldable pub add_duration : AtomicInstant → ℕ → AtomicInstant
add_duration t duration = record t { d = (t.d + duration / nanos_per_milli % 2 ^ 64) % 2 ^ 64 }

unfoldable pub to_std : AtomicInstant → ℕ
to_std t = t.epoch + t.d * nanos_per_milli

unfoldable pub elapsed : ℕ → AtomicInstant → ℕ
unfolding to_std
elapsed now t = now - to_std t

-- `AtomicTimestamp`: seconds and nanoseconds of the system clock.
pub record AtomicTimestamp : Type 0 where
  pub secs : ℕ
  pub nanos : ℕ

pub record HandshakeMonitor : Type 0 where
  pub last_attempt_at : AtomicInstant
  pub last_complete_at : AtomicInstant
  pub last_complete_ts : AtomicTimestamp
  pub attempt_before : AtomicInstant

-- `HandshakeMonitor::new`; the clock has run for `reject_after_time` by then, or the subtraction
-- panics.
unfoldable pub new_handshake : ℕ → HandshakeMonitor
unfolding from_std add_duration
new_handshake now = record {
  last_attempt_at = from_std (now - rekey_timeout);
  last_complete_at = from_std (now - reject_after_time);
  last_complete_ts = record { secs = 0; nanos = 0 };
  attempt_before = add_duration (from_std now) rekey_attempt_time;
}

unfoldable pub initiated : ℕ → HandshakeMonitor → HandshakeMonitor
unfolding set_now
initiated now h = record h { last_attempt_at = set_now now h.last_attempt_at }

unfoldable pub is_max_attempt : ℕ → HandshakeMonitor → Bool
unfolding to_std
is_max_attempt now h = ltb (to_std h.attempt_before) now

unfoldable pub will_initiate_in : ℕ → HandshakeMonitor → ℕ
unfolding elapsed is_max_attempt to_std
will_initiate_in now h =
    if is_max_attempt now h || ltb (elapsed now h.last_complete_at) rekey_after_time
    then now + rekey_timeout
    else to_std h.last_attempt_at + rekey_timeout

unfoldable pub reset_attempt : ℕ → HandshakeMonitor → HandshakeMonitor
unfolding set_now add_duration
reset_attempt now h = record h {
  attempt_before = add_duration (set_now now h.attempt_before) rekey_attempt_time;
}

-- `completed`, with the system clock's time.
unfoldable pub completed : ℕ → AtomicTimestamp → HandshakeMonitor → HandshakeMonitor
unfolding set_now reset_attempt
completed now system h =
    reset_attempt now
      (record h { last_complete_at = set_now now h.last_complete_at; last_complete_ts = system })

pub record TrafficMonitor : Type 0 where
  pub last_sent_at : AtomicInstant
  pub last_recv_at : AtomicInstant
  pub tx_messages : ℕ
  pub rx_messages : ℕ
  pub tx_bytes : ℕ
  pub rx_bytes : ℕ

unfoldable pub new_traffic : ℕ → TrafficMonitor
unfolding from_std
new_traffic now = record {
  last_sent_at = from_std now;
  last_recv_at = from_std (now - rekey_timeout);
  tx_messages = 0;
  rx_messages = 0;
  tx_bytes = 0;
  rx_bytes = 0;
}

unfoldable pub outbound : ℕ → ℕ → TrafficMonitor → TrafficMonitor
unfolding set_now
outbound now bytes t = record t {
  last_sent_at = set_now now t.last_sent_at;
  tx_messages = (t.tx_messages + 1) % 2 ^ 64;
  tx_bytes = (t.tx_bytes + bytes) % 2 ^ 64;
}

-- `inbound` counts, and leaves `last_recv_at` as it is.
unfoldable pub inbound : ℕ → TrafficMonitor → TrafficMonitor
inbound bytes t = record t {
  rx_messages = (t.rx_messages + 1) % 2 ^ 64;
  rx_bytes = (t.rx_bytes + bytes) % 2 ^ 64;
}

pub record KeepAliveMonitor : Type 0 where
  pub last_attempt_at : AtomicInstant
  pub persistent_keepalive_interval : Option ℕ

unfoldable pub new_keepalive : ℕ → Option ℕ → KeepAliveMonitor
unfolding from_std
new_keepalive now interval = record {
  last_attempt_at = from_std now;
  persistent_keepalive_interval = interval;
}

-- `perisistent_keepalive_interval.map(..).unwrap_or_else(..)`
unfoldable pub persistent : ℕ → KeepAliveMonitor → ℕ
unfolding to_std
persistent now k = elim k.persistent_keepalive_interval [
  | none ↦ now + rekey_after_time
  | some v ↦ to_std k.last_attempt_at + v
]

unfoldable pub next_attempt_in : ℕ → KeepAliveMonitor → TrafficMonitor → ℕ
unfolding elapsed to_std persistent
next_attempt_in now k t =
    if leb keepalive_timeout (elapsed now k.last_attempt_at)
      && ltb (to_std t.last_sent_at) (to_std t.last_recv_at)
    then if ltb keepalive_timeout (elapsed now t.last_recv_at)
      then now
      else now + keepalive_timeout - elapsed now t.last_recv_at
    else persistent now k

unfoldable pub can : ℕ → KeepAliveMonitor → TrafficMonitor → Bool
unfolding next_attempt_in
can now k t = leb (next_attempt_in now k t) now

unfoldable pub attempt : ℕ → KeepAliveMonitor → KeepAliveMonitor
unfolding set_now
attempt now k = record k { last_attempt_at = set_now now k.last_attempt_at }

pub record PeerMonitor : Type 0 where
  pub handshake : HandshakeMonitor
  pub traffic : TrafficMonitor
  pub keepalive : KeepAliveMonitor

unfoldable pub new : ℕ → Option ℕ → PeerMonitor
unfolding new_handshake new_traffic new_keepalive
new now interval = record {
  handshake = new_handshake now;
  traffic = new_traffic now;
  keepalive = new_keepalive now interval;
}

-- `can_handshake` also moves the deadline of the attempts.
unfoldable pub can_handshake : ℕ → PeerMonitor → PeerMonitor × Bool
unfolding elapsed to_std reset_attempt
can_handshake now m =
    if leb rekey_after_messages m.traffic.tx_messages
    then (m, true)
    else if ltb (elapsed now m.handshake.last_complete_at) rekey_after_time
    then (m, false)
    else let h =
        if ltb (to_std m.handshake.attempt_before)
          (to_std m.handshake.last_complete_at + rekey_after_time)
        then reset_attempt now m.handshake
        else m.handshake in
      (record m { handshake = h }, leb rekey_timeout (elapsed now h.last_attempt_at))
