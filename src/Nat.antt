-- ===== src/Nat.antt =====
-- The public port of a device behind a NAT: vlinkd/src/transport/nat2pub/upnp_service.rs and nat_service.rs,
-- with the loops of transport/proto/nat_udp.rs and nat_tcp.rs. The gateway and what it keeps are parameters;
-- what the STUN server sends is the list of the attributes that the crate reads of it.
pub mod Gateway
pub mod Mapping
mod Examples
use vlink.Prelude.{
  ℕ, ◌==◌, ◌-◌, ltb, Bool, true, false, not, List, [], ◌∷◌, ◌++◌, Option, none, some, if◌then◌else◌,
}
use vlink.Prelude.Text.{codes}
use vlink.Outcome.{Outcome, ok, err, panic, ◌>>=◌}
use vlink.Cidr.{IpAddr, ip_v4, ip_v6}
use vlink.Daemon.Events.{DeviceEvent, extra_endpoint_success}

-- `PortMappingProtocol`
pub data Protocol : Type 0 where
  udp tcp : Protocol

-- `UpnpError` and the errors of a gateway.
pub data UpnpError : Type 0 where
  ipv6 port_error port_in_use not_reached refused bad_duration : UpnpError

-- The gateways, by what they keep: the address of the one that is found, with the local address towards it, and
-- its answers to a mapping that is added or removed.
pub record Gateways (World : Type 0) : Type 0 where
  pub search : World → Option (ℕ × IpAddr)
  pub add : World → Protocol → ℕ → List ℕ → ℕ → ℕ → World × Outcome UpnpError (Unit {0})
  pub remove : World → Protocol → ℕ → World × Bool

-- `UpnpService`, with its options.
pub record UpnpService : Type 0 where
  pub duration : ℕ
  pub protocol : Protocol
  pub external_port : Option ℕ
  pub inner_port : ℕ

-- `UpnpService::new` as `NatService::new` makes it.
unfoldable pub new_service : Protocol → ℕ → UpnpService
new_service protocol port = record {
  duration = 140;
  protocol = protocol;
  external_port = none;
  inner_port = port;
}

unfoldable pub set_inner_port : UpnpService → ℕ → UpnpService
set_inner_port service port = record service { inner_port = port }

-- An attribute of a STUN message.
pub data Attr : Type 0 where
  mapped_address changed_address other_attribute : Attr
  xor_mapped_v4 : List ℕ → ℕ → Attr
  xor_mapped_v6 : Attr

module _ {World : Type 0} (gateways : Gateways World) where
  -- The turn of the loop of `add_port` that does not retry.
  unfoldable pub add_again : UpnpService → World → ℕ → List ℕ → World × Outcome UpnpError (Unit {0})
  add_again service world port ip =
      gateways.add world service.protocol port ip service.inner_port service.duration

  -- What the turn that retries does with the answer: a port in use is removed, for TCP whatever the
  -- protocol is.
  unfoldable pub retry :
      UpnpService
      → ℕ
      → List ℕ
      → World × Outcome UpnpError (Unit {0})
      → World × Outcome UpnpError (Unit {0})
  retry service port ip (world, err port_in_use) =
      let removed = gateways.remove world tcp port in
      if removed.1 then add_again service removed.0 port ip else (removed.0, err port_in_use)
  retry service port ip (world, answer) = (world, answer)

  unfoldable pub add_retrying :
      UpnpService → World → ℕ → List ℕ → World × Outcome UpnpError (Unit {0})
  add_retrying service world port ip =
      retry service port ip
        (gateways.add world service.protocol port ip service.inner_port service.duration)

  -- `add_port`: the gateway, the local address and the inner port.
  unfoldable pub add_port : UpnpService → World → ℕ → World × Outcome UpnpError (ℕ × List ℕ × ℕ)
  add_port service world port = elim (gateways.search world) [
    | none ↦ (world, err not_reached)
    | some (gateway, local) ↦ elim local [
      | ip_v6 octets ↦ (world, err ipv6)
      | ip_v4 octets ↦
          if service.inner_port == 0
          then (world, err port_error)
          else let done = add_retrying service world port octets in
            (done.0, done.1 >>= λ u. ok (gateway, octets, service.inner_port))
    ]
  ]

  -- `set_external_port`: the port is kept even where its mapping failed.
  unfoldable pub set_external_port : UpnpService → World → ℕ → UpnpService × World
  set_external_port service world port =
      let asks : Bool = elim service.external_port [ none ↦ true | some old ↦ not (old == port) ] in
      (
        record service { external_port = some port },
        if asks then (add_port service world port).0 else world,
      )

  -- A turn of the loop of `UpnpService::start`, which renews the mapping.
  unfoldable pub renew : UpnpService → World → World
  renew service world = elim service.external_port [
    | none ↦ world
    | some port ↦ (add_port service world port).0
  ]

  -- The seconds between two turns.
  unfoldable pub renew_interval : UpnpService → Outcome UpnpError ℕ
  renew_interval service =
      if ltb service.duration 60 then err bad_duration else ok (service.duration - 10)

  -- `recv_from_udp` over the attributes that arrive: the public addresses that it tells, each one twice.
  unfoldable pub recv_from_udp :
      UpnpService → World → List Attr → Outcome UpnpError (UpnpService × World × List (List ℕ × ℕ))
  recv_from_udp service world [] = ok (service, world, [])
  recv_from_udp service world (mapped_address ∷ attrs) = recv_from_udp service world attrs
  recv_from_udp service world (changed_address ∷ attrs) = recv_from_udp service world attrs
  recv_from_udp service world (other_attribute ∷ attrs) = recv_from_udp service world attrs
  recv_from_udp service world (xor_mapped_v4 ip port ∷ attrs) =
      let set = set_external_port service world port in
      recv_from_udp set.0 set.1 attrs >>= λ rest.
      ok (rest.0, rest.1, (ip, port) ∷ (ip, port) ∷ rest.2)
  recv_from_udp service world (xor_mapped_v6 ∷ attrs) = panic

  -- The loop of `stun_connect_tcp`: a mapping that fails ends it with its error.
  unfoldable pub recv_from_tcp :
      UpnpService → World → List Attr → World × List (List ℕ × ℕ) × Outcome UpnpError (Unit {0})
  recv_from_tcp service world [] = (world, [], ok tt)
  recv_from_tcp service world (mapped_address ∷ attrs) = recv_from_tcp service world attrs
  recv_from_tcp service world (changed_address ∷ attrs) = recv_from_tcp service world attrs
  recv_from_tcp service world (other_attribute ∷ attrs) = recv_from_tcp service world attrs
  recv_from_tcp service world (xor_mapped_v4 ip port ∷ attrs) =
      let added = add_port service world port in
      let rest = recv_from_tcp service added.0 attrs in
      elim added.1 [
        | ok u ↦ (rest.0, (ip, port) ∷ rest.1, rest.2)
        | err e ↦ (added.0, (ip, port) ∷ [], err e)
        | panic ↦ (added.0, (ip, port) ∷ [], panic)
      ]
  recv_from_tcp service world (xor_mapped_v6 ∷ attrs) = (world, [], panic)

-- The events of `NatUdpTransport::start` and `NatTcpTransport::start` for the addresses that they receive,
-- written as text by a function, where the forwarder of each port starts.
unfoldable pub announce : (List ℕ × ℕ → List ℕ) → Protocol → List (List ℕ × ℕ) → List DeviceEvent
announce show protocol [] = []
announce show udp (addr ∷ addrs) =
    extra_endpoint_success (codes "NatUdp") (show addr) ∷ announce show udp addrs
announce show tcp (addr ∷ addrs) =
    extra_endpoint_success (codes "NatTcp") (show addr) ∷ announce show tcp addrs
