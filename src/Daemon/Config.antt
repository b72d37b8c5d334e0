-- ===== src/Daemon/Config.antt =====
-- The configuration that the daemon makes of the head server's: vlinkd/src/handler/first_connected.rs and
-- handler/common.rs, with `DeviceConfig::peer` of vlink-tun/src/device/config.rs.
use vlink.Prelude.{
  ℕ, ◌%◌, ◌^◌, ◌==◌, ltb, List, [], ◌∷◌, length, map, Option, none, some, if◌then◌else◌,
}
use vlink.Outcome.{Outcome, ok, err, panic, ◌>>=◌}
use vlink.Head.{
  BcPeerEnter, RespConfig, ToClientData, peer_enter, peer_leave, update_extra_endpoint,
  require_reply, resp_config, resp_handshake, client_error, put,
}
use vlink.Cidr.{IpAddr, Networks, new_cidr}
use vlink.Peers.{PeerConfig}
use vlink.Daemon.{
  Crates, DaemonError, not_a_config, bad_key, bad_address, bad_network, ArgConfig, DeviceConfig,
  NetworkConfig,
}

-- A `?` on a value that is missing, and an `unwrap` of one.
abbrev pub try_option {ℓ} : {A : Type ℓ} → DaemonError → Option A → Outcome DaemonError A
try_option e none = err e
try_option e (some a) = ok a

abbrev pub unwrap_option {ℓ} : {A : Type ℓ} → Option A → Outcome DaemonError A
unwrap_option none = panic
unwrap_option (some a) = ok a

-- `try_into().unwrap()` of bytes into a key.
unfoldable pub key_of_bytes : List ℕ → Outcome DaemonError (List ℕ)
key_of_bytes bytes = if length bytes == 32 then ok bytes else panic

unfoldable pub default_port : ℕ
default_port = 51820

-- `DeviceConfig::peer`
unfoldable pub add_peer : {Net : Type 0} → DeviceConfig Net → PeerConfig Net → DeviceConfig Net
add_peer cfg peer = record cfg { peers = put cfg.peers peer.public_key peer }

module _ {Net Table : Type 0} (n : Networks Net Table) (crates : Crates) where
  -- The endpoint of a listed peer.
  unfoldable pub listed_endpoint : BcPeerEnter → Outcome DaemonError (Option ℕ)
  listed_endpoint p = elim p.endpoint_addr [
    | none ↦ ok none
    | some addr ↦ try_option bad_address (crates.parse_ip_addr addr) >>= λ ip.
        ok (some (crates.endpoint_for ip (p.port % 2 ^ 16)))
  ]

  -- `Cidr::new` with a whole address
  unfoldable pub listed_net : IpAddr → Outcome DaemonError Net
  listed_net ip = elim (new_cidr n ip 32) [ ok net ↦ ok net | err e ↦ panic | panic ↦ panic ]

  unfoldable pub bc_peer_enter2peer_config : BcPeerEnter → Outcome DaemonError (PeerConfig Net)
  bc_peer_enter2peer_config p = do
    pk ← try_option bad_key (crates.decode_base64 p.pub_key)
    ip ← unwrap_option (crates.parse_ip_addr p.ip)
    net ← listed_net ip
    public_key ← key_of_bytes pk
    endpoint ← listed_endpoint p
    ok (record {
      public_key = public_key;
      allowed_ips = net ∷ [];
      endpoint = endpoint;
      preshared_key = none;
      is_online = p.online;
      persistent_keepalive = none;
    })

  -- The loop over the peers of a response.
  unfoldable pub add_peers :
      DeviceConfig Net → List BcPeerEnter → Outcome DaemonError (DeviceConfig Net)
  add_peers cfg [] = ok cfg
  add_peers cfg (p ∷ ps) = bc_peer_enter2peer_config p >>= λ c. add_peers (add_peer cfg c) ps

  unfoldable pub config_port : RespConfig → ArgConfig → ℕ
  config_port resp args =
      if ltb 0 resp.port
      then resp.port % 2 ^ 16
      else elim args.port [ none ↦ default_port | some port ↦ port ]

  -- `request_for_config` behind the match on the response
  unfoldable pub config_of_resp :
      List ℕ → ArgConfig → RespConfig → Outcome DaemonError (NetworkConfig Net)
  config_of_resp private_key args resp = do
    network ← try_option bad_network (crates.new_network resp.network (resp.mask % 2 ^ 8))
    let empty : DeviceConfig Net = record {
      private_key = private_key;
      port = config_port resp args;
      peers = [];
      address = resp.address;
      network = network;
    }
    device ← add_peers empty resp.peers
    ok (record {
      device_config = device;
      arg_config = args;
      transports =
          map (λ (t : List ℕ × List ℕ). record { proto = t.0; params = t.1 }) resp.extra_transports;
      peer_extra_transports = resp.peer_extra_transports;
    })

  -- `request_for_config`, with the response to the request.
  unfoldable pub request_for_config :
      List ℕ → ArgConfig → ToClientData → Outcome DaemonError (NetworkConfig Net)
  request_for_config private_key args (resp_config resp) = config_of_resp private_key args resp
  request_for_config private_key args (peer_enter e) = err not_a_config
  request_for_config private_key args (peer_leave k) = err not_a_config
  request_for_config private_key args (update_extra_endpoint k proto endpoint) = err not_a_config
  request_for_config private_key args (require_reply r) = err not_a_config
  request_for_config private_key args (resp_handshake b) = err not_a_config
  request_for_config private_key args client_error = err not_a_config
