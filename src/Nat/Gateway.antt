-- ===== src/Nat/Gateway.antt =====
-- A gateway of UPnP: what vlinkd/src/transport/nat2pub/ relies on, by the ports that others hold.
use vlink.Prelude.{ℕ, Bool, true, List, ◌≡◌, ◌⊎◌}
use vlink.Outcome.{ok, err}
use vlink.Nat.{Protocol, udp, tcp, port_in_use, Gateways, UpnpService}

-- What a gateway promises of the mappings that others hold: it refuses a port that one of the same protocol
-- holds, and says so of no other port; what it adds, and what it removes for TCP, leaves the ports that others hold for
-- UDP.
pub record IsGateway {World : Type 0} (gateways : Gateways World) : Type 0 where
  pub holds : World → Protocol → ℕ → Bool
  pub held :
      (w : World) (protocol : Protocol) (port : ℕ) (ip : List ℕ) (inner duration : ℕ)
      → holds w protocol port ≡ true
      → gateways.add w protocol port ip inner duration ≡ (w, err port_in_use)
  pub in_use :
      (w : World) (protocol : Protocol) (port : ℕ) (ip : List ℕ) (inner duration : ℕ)
      → (gateways.add w protocol port ip inner duration).1 ≡ err port_in_use
      → holds w protocol port ≡ true
  pub kept :
      (w : World) (protocol : Protocol) (port : ℕ) (ip : List ℕ) (inner duration k : ℕ)
      → holds (gateways.add w protocol port ip inner duration).0 udp k ≡ holds w udp k
  pub apart : (w : World) (port k : ℕ) → holds (gateways.remove w tcp port).0 udp k ≡ holds w udp k

-- Whether a gateway takes the mapping of a service.
abbrev pub Takes : {World : Type 0} → Gateways World → UpnpService → World → ℕ → List ℕ → Type 0
Takes gateways service w port ip =
    (gateways.add w service.protocol port ip service.inner_port service.duration).1 ≡ ok tt

-- Whether a mapping can be had: it is taken at once, or, for TCP, where its port is held, is removed, and then it is
-- taken.
abbrev pub Obtains :
    {World : Type 0} (gateways : Gateways World)
    → IsGateway gateways
    → UpnpService
    → World
    → ℕ
    → List ℕ
    → Type 0
Obtains gateways gateway service w port ip =
    Takes gateways service w port ip
    ⊎ ((service.protocol ≡ tcp)
        × (gateway.holds w tcp port ≡ true)
        × ((gateways.remove w tcp port).1 ≡ true)
        × Takes gateways service (gateways.remove w tcp port).0 port ip)
