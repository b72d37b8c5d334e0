-- ===== src/Daemon.antt =====
-- The daemon of a device, vlinkd/src/: what it keeps of its network and of its extension protocols
-- (network/mod.rs, network/ctrl.rs, config.rs). Text is the list of its bytes; messages are those of the
-- head server.
pub mod Config
pub mod Events
pub mod Relay
pub mod Client
pub mod Connect
pub mod Joining
pub mod Online
pub mod Relaying
mod Examples
use vlink.Prelude.{ℕ, Bool, true, false, List, [], ◌∷◌, Option, none, some, if◌then◌else◌}
use vlink.Prelude.Text.{codes}
use vlink.Bytes.{bytes_eq}
use vlink.Head.{ToClientData}
use vlink.Cidr.{IpAddr}
use vlink.Peers.{PeerConfig}

-- What the crates and the operating system give: base64, the text of an address of either kind, the
-- number of the sender for an address and a port, a network of an address and a prefix, the address that
-- a tun device has once one is set, and the message `RequireReply` of a source and a server.
pub record Crates : Type 0 where
  pub decode_base64 : List ℕ → Option (List ℕ)
  pub encode_base64 : List ℕ → List ℕ
  pub parse_ip_addr : List ℕ → Option IpAddr
  pub endpoint_for : IpAddr → ℕ → ℕ
  pub new_network : ℕ → ℕ → Option (ℕ × ℕ)
  pub tun_address : ℕ → ℕ
  pub reply_message : List ℕ → List ℕ → List ℕ

-- The errors of the daemon, without their texts.
pub data DaemonError : Type 0 where
  not_a_config bad_key bad_address bad_network bad_proto : DaemonError
  not_connected closed timed_out refused no_reply : DaemonError

-- `ExtraProto`, with the names that it derives.
pub data ExtraProto : Type 0 where
  nat_udp nat_tcp dip : ExtraProto

unfoldable pub proto_name : ExtraProto → List ℕ
proto_name nat_udp = codes "NatUdp"
proto_name nat_tcp = codes "NatTcp"
proto_name dip = codes "Dip"

unfoldable pub proto_of_name : List ℕ → Option ExtraProto
proto_of_name name =
    if bytes_eq name (codes "NatUdp")
    then some nat_udp
    else if bytes_eq name (codes "NatTcp")
    then some nat_tcp
    else if bytes_eq name (codes "Dip")
    then some dip
    else none

-- `ExtraProtoStatus`, without the text of an error.
pub record ExtraProtoStatus : Type 0 where
  pub endpoint : Option (List ℕ)
  pub running : Bool
  pub failed : Bool

abbrev pub same_proto : ExtraProto → ExtraProto → Bool
same_proto a b = bytes_eq (proto_name a) (proto_name b)

-- `ArgConfig` and `TransportConfig`
pub record ArgConfig : Type 0 where
  pub endpoint_addr : Option (List ℕ)
  pub port : Option ℕ

pub record TransportConfig : Type 0 where
  pub proto : List ℕ
  pub params : List ℕ

-- `DeviceConfig`, with the peers by their keys; `fwmark` is 0.
pub record DeviceConfig (Net : Type 0) : Type 0 where
  pub private_key : List ℕ
  pub port : ℕ
  pub peers : List (List ℕ × PeerConfig Net)
  pub address : ℕ
  pub network : ℕ × ℕ

-- `VlinkNetworkConfig`; the name of the tun device and the list of STUN servers are empty.
pub record NetworkConfig (Net : Type 0) : Type 0 where
  pub device_config : DeviceConfig Net
  pub arg_config : ArgConfig
  pub transports : List TransportConfig
  pub peer_extra_transports : List (List ℕ × List ℕ × List ℕ)

-- `NetworkCtrlCmd`
pub data NetworkCtrlCmd : Type 0 where
  req_info change_ip first_connected connected : NetworkCtrlCmd
  to_client_data : ToClientData → NetworkCtrlCmd
