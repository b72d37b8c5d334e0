-- ===== src/Noise/Timestamp.antt =====
-- vlink-tun/src/noise/timestamp.rs: a TAI64N label with whitened nanoseconds.
use vlink.Prelude.{ℕ, ◌+◌, ◌*◌, ◌/◌, ◌%◌, ◌^◌, List, ◌++◌}
use vlink.Bytes.{to_be_bytes}

abbrev pub base : ℕ
base = 0x400000000000000a

-- `nanos & !WHITENER_MASK` clears the low 24 bits.
unfoldable pub whiten : ℕ → ℕ
whiten nanos = nanos / 2 ^ 24 * 2 ^ 24

-- `Timestamp::stamp` at `secs` seconds and `nanos` nanoseconds after the epoch.
unfoldable pub stamp : ℕ → ℕ → List ℕ
stamp secs nanos = to_be_bytes 8 ((base + secs) % 2 ^ 64) ++ to_be_bytes 4 (whiten nanos)
