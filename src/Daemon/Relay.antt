-- ===== src/Daemon/Relay.antt =====
-- How the daemon finds an endpoint for a peer: vlinkd/src/transport/ext_transport_selector.rs and
-- transport/proto/relay_transport.rs, with the choice of transports of network/mod.rs. A client of a relay
-- is its server; whether a relay, or a client of a transport, can be reached is an argument.
use vlink.Prelude.{
  ℕ, Bool, true, false, not, List, [], ◌∷◌, ◌++◌, ◌==◌, length, Option, none, some, if◌then◌else◌,
}
use vlink.Prelude.Text.{codes}
use vlink.Bytes.{bytes_eq}
use vlink.Outcome.{Outcome, ok, err, require, ◌>>=◌}
use vlink.Head.{lookup, put}
use vlink.Head.Requests.{ToServerData, forward_request}
use vlink.Noise.Crypto.{Primitives}
use vlink.Cidr.{Networks}
use vlink.Peer.{update_endpoint}
use vlink.Peers.{PeerList, get_by_key}
use vlink.Daemon.{Crates, DaemonError, bad_key, closed}
use vlink.Daemon.Config.{try_option, unwrap_option, key_of_bytes}
use vlink.Daemon.Events.{change_peer}

-- What can be reached: a relay, the endpoint over a relay for a key, and a client of a transport, which
-- has the number of its endpoint.
pub record Reachable : Type 0 where
  pub relay : List ℕ → Bool
  pub relay_endpoint : List ℕ → List ℕ → ℕ
  pub nat_udp : List ℕ → Option ℕ
  pub nat_tcp : List ℕ → Option ℕ

-- The relays that are connected, with the peers of the device.
pub record Relays (Net Table : Type 0) : Type 0 where
  pub derp_client_map : List (List ℕ × Bool)
  pub peers : PeerList Net Table

abbrev pub has_server : List (List ℕ × Bool) → List ℕ → Bool
has_server map server = elim (lookup map server) [ none ↦ false | some task ↦ true ]

abbrev pub relay_server : List ℕ
relay_server = codes "wss://oaodev.local.hperfect.cn:11443/derp"

module _ {Net Table : Type 0} (n : Networks Net Table) (p : Primitives) (crates : Crates)
    (world : Reachable) where
  -- `connect_derp_server`: the endpoint is replaced only where the relay was connected before, since the
  -- branch that connects returns.
  unfoldable pub connect_derp_server :
      Relays Net Table → List ℕ → List ℕ → Relays Net Table × Outcome DaemonError (Unit {0})
  connect_derp_server relays server target =
      if has_server relays.derp_client_map server
      then (
        record relays {
          peers =
              change_peer n p crates relays.peers target
                (λ peer. update_endpoint peer (world.relay_endpoint server target));
        },
        ok tt,
      )
      else if world.relay server
      then (record relays { derp_client_map = put relays.derp_client_map server true }, ok tt)
      else (relays, err closed)

  -- `RelayTransport::require_reply` of a device with the text of a key, for another: the relay and the request are
  -- sent to it through the head server, whether the relay is connected or not.
  unfoldable pub require_reply :
      List ℕ → Relays Net Table → List ℕ → Relays Net Table × ToServerData
  require_reply src relays target = (
    (connect_derp_server relays relay_server target).0,
    forward_request (some (crates.reply_message src relay_server)) (crates.encode_base64 target),
  )

  -- A request for a relay: the source is decoded or the task panics.
  unfoldable pub on_require_reply :
      Relays Net Table → List ℕ → List ℕ → Outcome DaemonError (Relays Net Table)
  on_require_reply relays src server = unwrap_option (crates.decode_base64 src) >>= λ bytes.
      key_of_bytes bytes >>= λ key. ok (connect_derp_server relays server key).0

  -- A client of the first transport of a peer, by the name of its protocol.
  unfoldable pub start_transport : List ℕ → List ℕ → Outcome DaemonError (Option ℕ)
  start_transport proto endpoint =
      if bytes_eq proto (codes "NatUdp")
      then (unwrap_option (world.nat_udp endpoint) >>= λ e. ok (some e))
      else if bytes_eq proto (codes "NatTcp")
      then ok (world.nat_tcp endpoint)
      else ok none

  -- A turn of `ExtTransportSelector` for a peer that is online: its endpoint, or a relay.
  unfoldable pub use_transport :
      Relays Net Table → List ℕ → Option ℕ → Relays Net Table × List ToServerData
  use_transport relays key none = (relays, [])
  use_transport relays key (some e) = (
    record relays {
      peers = change_peer n p crates relays.peers key (λ peer. update_endpoint peer e);
    },
    [],
  )

  unfoldable pub find_endpoint :
      List ℕ
      → Relays Net Table
      → List ℕ
      → List (List ℕ × List ℕ)
      → Outcome DaemonError (Relays Net Table × List ToServerData)
  find_endpoint src relays key [] =
      let asked = require_reply src relays key in ok (asked.0, asked.1 ∷ [])
  find_endpoint src relays key ((proto, endpoint) ∷ others) =
      start_transport proto endpoint >>= λ e. ok (use_transport relays key e)

  unfoldable pub select_tick :
      List ℕ
      → Relays Net Table
      → List ℕ
      → List (List ℕ × List ℕ)
      → Outcome DaemonError (Relays Net Table × List ToServerData)
  select_tick src relays key transports = elim (get_by_key n p relays.peers key) [
    | none ↦ ok (relays, [])
    | some peer ↦ if not peer.online then ok (relays, []) else elim peer.endpoint [
      | none ↦ find_endpoint src relays key transports
      | some e ↦ ok (relays, [])
    ]
  ]

  -- The transports of a configuration by the keys of their peers, in `start_device`.
  unfoldable pub group_transports :
      List (List ℕ × List (List ℕ × List ℕ))
      → List (List ℕ × List ℕ × List ℕ)
      → Outcome DaemonError (List (List ℕ × List (List ℕ × List ℕ)))
  group_transports groups [] = ok groups
  group_transports groups ((target, proto, endpoint) ∷ more) =
      try_option bad_key (crates.decode_base64 target) >>= λ bytes.
      require (length bytes == 32) bad_key >>= λ u.
      let key = bytes in
      group_transports
        (elim (lookup groups key) [
          | none ↦ put groups key ((proto, endpoint) ∷ [])
          | some es ↦ put groups key (es ++ (proto, endpoint) ∷ [])
        ])
        more
