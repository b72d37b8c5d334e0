-- ===== src/Udp.antt =====
-- The UDP sockets of a device: vlink-tun/src/device/transport/udp.rs. A receive buffer is its length, since
-- what it held before is never read; a socket of the operating system cuts a datagram to the length of
-- the buffer that it is given.
pub mod Receiving
mod Examples
use vlink.Prelude.{
  ℕ, zero, suc, ◌==◌, ◌≤◌, Bool, true, false, List, [], ◌∷◌, length, take, Option, none, some,
  if◌then◌else◌,
}
use vlink.Outcome.{Outcome, ok, err, panic, ◌>>=◌}
use vlink.Noise.Cookie.{SocketAddr, v4, v6}

-- What the operating system does: a socket for a port at the time of an attempt, with the port that it
-- got, or the number of its error.
pub record Sockets : Type 0 where
  pub bind_v4 : ℕ → ℕ → Outcome ℕ ℕ
  pub bind_v6 : ℕ → ℕ → Outcome ℕ ℕ

-- `UdpTransport`, by its port and its buffers.
pub record UdpTransport : Type 0 where
  pub port : ℕ
  pub ipv4_buf : ℕ
  pub ipv6_buf : ℕ

-- What comes from the two sockets: a datagram on one of them with its sender, or an error.
pub data Arrival : Type 0 where
  on_v4 on_v6 : SocketAddr → List ℕ → Arrival
  failed : Arrival

-- The two sockets of `bind_socket` at one attempt.
unfoldable pub bind_pair : Sockets → ℕ → ℕ → Outcome ℕ ℕ
bind_pair sockets attempt port =
    sockets.bind_v4 attempt port >>= λ got. sockets.bind_v6 attempt got >>= λ u. ok got

-- `bind_socket`: the attempts that are left, with the error of the last one.
unfoldable pub bind_tries : Sockets → ℕ → ℕ → Option ℕ → ℕ → Outcome ℕ ℕ
bind_tries sockets zero attempt none port = panic
bind_tries sockets zero attempt (some e) port = err e
bind_tries sockets (suc left) attempt last port = elim (bind_pair sockets attempt port) [
  | ok got ↦ ok got
  | err e ↦ bind_tries sockets left (suc attempt) (some e) port
  | panic ↦ panic
]

unfoldable pub max_retry : ℕ → ℕ
max_retry port = if port == 0 then 10 else 1

unfoldable pub bind_socket : Sockets → ℕ → Outcome ℕ ℕ
bind_socket sockets port = bind_tries sockets (max_retry port) 0 none port

-- `bind`
unfoldable pub bind : Sockets → ℕ → Outcome ℕ UdpTransport
bind sockets port =
    bind_socket sockets port >>= λ got. ok (record { port = got; ipv4_buf = 0; ipv6_buf = 0 })

-- `recv_from`, where the test of the second buffer fills the first one.
unfoldable pub fill_buffers : UdpTransport → UdpTransport
fill_buffers udp =
    let first = if udp.ipv4_buf == 0 then record udp { ipv4_buf = 2048 } else udp in
    if first.ipv6_buf == 0 then record first { ipv4_buf = 2048 } else first

unfoldable pub recv_from : UdpTransport → Arrival → UdpTransport × Option (SocketAddr × List ℕ)
recv_from udp (on_v4 addr bytes) =
    (fill_buffers udp, some (addr, take (fill_buffers udp).ipv4_buf bytes))
recv_from udp (on_v6 addr bytes) =
    (fill_buffers udp, some (addr, take (fill_buffers udp).ipv6_buf bytes))
recv_from udp failed = (fill_buffers udp, none)

-- The loop of `spawn`: what it hands to the device, until a socket fails.
unfoldable pub inbound : UdpTransport → List Arrival → List (SocketAddr × List ℕ)
inbound udp [] = []
inbound udp (arrival ∷ arrivals) =
    let rest = inbound (recv_from udp arrival).0 arrivals in
    elim (recv_from udp arrival).1 [ none ↦ [] | some received ↦ received ∷ rest ]

-- `send` of an `UdpOutboundSender`: whether it takes the socket of IPv6.
unfoldable pub sends_on_v6 : SocketAddr → Bool
sends_on_v6 (v4 octets port) = false
sends_on_v6 (v6 octets port) = true
