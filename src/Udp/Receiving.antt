-- ===== src/Udp/Receiving.antt =====
-- What the UDP loop of a device receives.
use vlink.Prelude.{ℕ, List, [], ◌∷◌, ◌++◌, sym, take, ◌≡◌, refl, ap, ◌∙◌, arith}
use vlink.Outcome.{ok, panic, bind-eq-ok, ok_inj}
use vlink.Noise.Cookie.{SocketAddr}
use vlink.Noise.Crypto.{Primitives}
use vlink.Cidr.{Networks}
use vlink.Device.{DeviceInner}
use vlink.Device.Loop.{Surroundings, loop_inbound, loop_inbound-panics}
use vlink.Udp.{
  Sockets, UdpTransport, Arrival, on_v4, on_v6, failed, bind_socket, bind, fill_buffers, recv_from,
  inbound,
}

-- What ought to be handed to the device, and is: a datagram of IPv4 up to 2048 bytes of it, and nothing
-- of a datagram of IPv6.
abbrev pub seen : List Arrival → List (SocketAddr × List ℕ)
seen [] = []
seen (on_v4 addr bytes ∷ arrivals) = (addr, take 2048 bytes) ∷ seen arrivals
seen (on_v6 addr bytes ∷ arrivals) = (addr, []) ∷ seen arrivals
seen (failed ∷ arrivals) = []

-- The buffers once a datagram is awaited.
abbrev ready : UdpTransport → UdpTransport
ready udp = record udp { ipv4_buf = 2048; ipv6_buf = 0 }

fill_buffers-bound : (udp : UdpTransport) → udp.ipv6_buf ≡ 0 → fill_buffers udp ≡ ready udp
unfolding fill_buffers
fill_buffers-bound udp h = ground arith

-- The loop over transports whose second buffer is empty.
inbound-bound :
    (udp : UdpTransport) (arrivals : List Arrival)
    → udp.ipv6_buf ≡ 0
    → inbound udp arrivals ≡ seen arrivals
unfolding inbound recv_from
inbound-bound udp [] h = refl
inbound-bound udp (on_v4 addr bytes ∷ arrivals) h =
    rw (fill_buffers-bound udp h)
      (ap (◌∷◌ (addr, take 2048 bytes)) (inbound-bound (ready udp) arrivals refl))
inbound-bound udp (on_v6 addr bytes ∷ arrivals) h =
    rw (fill_buffers-bound udp h) (ap (◌∷◌ (addr, [])) (inbound-bound (ready udp) arrivals refl))
inbound-bound udp (failed ∷ arrivals) h = refl

bind-empty :
    (sockets : Sockets) (port : ℕ) (udp : UdpTransport)
    → bind sockets port ≡ ok udp
    → udp.ipv6_buf ≡ 0
unfolding bind
bind-empty sockets port udp h =
    let (got, e, made) = bind-eq-ok (bind_socket sockets port) _ h in
    ap (λ (u : UdpTransport). u.ipv6_buf) (sym (ok_inj made))

-- Over sockets that were bound, the loop hands on what arrives up to the first failure of a socket: of a
-- datagram of IPv4 its first 2048 bytes, and of a datagram of IPv6 nothing but its sender.
pub inbound-bind :
    (sockets : Sockets) (port : ℕ) (udp : UdpTransport) (arrivals : List Arrival)
    → bind sockets port ≡ ok udp
    → inbound udp arrivals ≡ seen arrivals
inbound-bind sockets port udp arrivals h =
    inbound-bound udp arrivals (bind-empty sockets port udp h)

-- The arrivals before any failure.
abbrev pub IsRunning : List Arrival → Type 0
IsRunning [] = Unit {0}
IsRunning (on_v4 addr bytes ∷ arrivals) = IsRunning arrivals
IsRunning (on_v6 addr bytes ∷ arrivals) = IsRunning arrivals
IsRunning (failed ∷ arrivals) = ⊥

seen-append :
    (before after : List Arrival)
    → IsRunning before
    → seen (before ++ after) ≡ seen before ++ seen after
seen-append [] after h = refl
seen-append (on_v4 addr bytes ∷ before) after h =
    ap (◌∷◌ (addr, take 2048 bytes)) (seen-append before after h)
seen-append (on_v6 addr bytes ∷ before) after h = ap (◌∷◌ (addr, [])) (seen-append before after h)
seen-append (failed ∷ before) after h = absurd h

module _ {Net Table : Type 0} (n : Networks Net Table) (p : Primitives)
    (around : Surroundings Net Table) where
  -- Where a datagram of IPv6 arrives at sockets that were bound, before either of them fails, the
  -- inbound loop of the device ends in a panic, whatever the datagram, what arrived before and after
  -- it, the device, the clock and the other tasks are.
  pub loop_inbound-v6 :
      (inner : DeviceInner Net Table) (sockets : Sockets) (port : ℕ) (udp : UdpTransport)
      (before after : List Arrival) (addr : SocketAddr) (bytes : List ℕ)
      → bind sockets port ≡ ok udp
      → IsRunning before
      → loop_inbound n p around 0 inner (inbound udp (before ++ on_v6 addr bytes ∷ after)) ≡ panic
  loop_inbound-v6 inner sockets port udp before after addr bytes bound running =
      ap (loop_inbound n p around 0 inner) (
        inbound-bind sockets port udp (before ++ on_v6 addr bytes ∷ after) bound
        ∙ seen-append before (on_v6 addr bytes ∷ after) running)
      ∙ loop_inbound-panics n p around 0 inner (seen before) (seen after) addr
