-- ===== src/Monitor/Examples.antt =====
-- The theorems on the timers at a peer that starts one hour after the clock.
use vlink.Prelude.{ℕ, ◌*◌, ◌≡◌, refl, false, none, [], ◌∷◌}
use vlink.Monitor.{
  nanos_per_sec, AtomicTimestamp, new_traffic, new_keepalive, can, new, PeerMonitor,
}
use vlink.Monitor.Timing.{sent, received, record_all, can-record_all}

abbrev hour : ℕ
hour = 3600 * nanos_per_sec

abbrev peer : PeerMonitor
peer = new hour none

abbrev stamp : AtomicTimestamp
stamp = record { secs = 1; nanos = 2 }

can-record_all_example :
    can
      (2 * hour)
      (new_keepalive hour none)
      (record_all (new_traffic hour) (sent hour 5 ∷ received 7 ∷ []))
    ≡ false
unfolding new_keepalive
can-record_all_example =
    can-record_all hour (2 * hour) (new_keepalive hour none) (sent hour 5 ∷ received 7 ∷ []) refl
