-- ===== src/Head/Config.antt =====
-- The request for a configuration, headlink/src/client/handler/req_config.rs. The rows of the database and
-- the addresses of a network are parameters.
use vlink.Prelude.{ℕ, Bool, not, List, [], ◌∷◌, Option, none, some, if◌then◌else◌}
use vlink.Outcome.{ok, err}
use vlink.Head.{
  PeerModel, VlinkPeer, VlinkNetwork, BcPeerEnter, resp_config, is_online, lookup, refresh_model,
}
use vlink.Head.Address.{generate_ip, show_ip, parse_ip}
use vlink.Head.Requests.{
  ExecuteError, db_error, anyhow_error, parse_error, peer_not_found, ClientRequest, Reply,
}

-- What the handlers ask of the database: the addresses of a network, the update of a peer's address, and
-- the transports of a peer.
pub record Database : Type 0 where
  pub addresses : ℕ × ℕ → List ℕ
  pub update_ip : ℕ → List ℕ → Bool
  pub transports : ℕ → Option (List (List ℕ × List ℕ))
  pub order : List (List ℕ × List ℕ) → List (List ℕ × List ℕ)

-- `ReqConfig::execute` until the address is chosen: the peer, and its address where it has none yet.
pub data Choice : Type 0 where
  fails : ExecuteError → Choice
  keeps : VlinkPeer → ℕ → Choice
  chooses : VlinkPeer → ℕ → Choice

unfoldable pub choose_for : Database → VlinkNetwork → VlinkPeer → Option (List ℕ) → Choice
choose_for db network peer none = elim (generate_ip (db.addresses network.cidr) network.peers) [
  | none ↦ fails anyhow_error
  | some addr ↦ chooses peer addr
]
choose_for db network peer (some ip) = elim (parse_ip ip) [
  | none ↦ fails parse_error
  | some addr ↦ keeps peer addr
]

unfoldable pub choose_address : Database → VlinkNetwork → List ℕ → Choice
choose_address db network key = elim (lookup network.peers key) [
  | none ↦ fails peer_not_found
  | some peer ↦ choose_for db network peer peer.model.ip
]

-- The row of a peer with a chosen address, and the network behind it.
unfoldable pub with_address : VlinkPeer → ℕ → PeerModel
with_address peer addr = record peer.model { ip = some (show_ip addr) }

unfoldable pub write_address : VlinkNetwork → VlinkPeer → ℕ → VlinkNetwork
write_address network peer addr = record network {
  peers = refresh_model network.peers (with_address peer addr);
}

-- The peers that a configuration lists: those with an address.
unfoldable pub listed : List (List ℕ × VlinkPeer) → List BcPeerEnter
listed [] = []
listed ((k, peer) ∷ peers) = elim peer.model.ip [
  | none ↦ listed peers
  | some ip ↦
      record {
        pub_key = k;
        ip = ip;
        endpoint_addr = elim peer.online_info [ none ↦ none | some info ↦ info.endpoint_addr ];
        port = elim peer.online_info [ none ↦ 0 | some info ↦ info.port ];
        online = is_online peer;
      }
      ∷ listed peers
]

-- The last endpoint of each peer that is online, in the order in which its map is gone through.
unfoldable pub last_endpoint : List (List ℕ × List ℕ) → Option (List ℕ × List ℕ)
last_endpoint [] = none
last_endpoint (e ∷ []) = some e
last_endpoint (e ∷ x ∷ es) = last_endpoint (x ∷ es)

unfoldable pub peer_transports :
    Database → List (List ℕ × VlinkPeer) → List (List ℕ × List ℕ × List ℕ)
peer_transports db [] = []
peer_transports db ((k, peer) ∷ peers) = elim peer.online_info [
  | none ↦ peer_transports db peers
  | some info ↦ elim (last_endpoint (db.order info.extra_endpoints)) [
    | none ↦ peer_transports db peers
    | some e ↦ (k, e.0, e.1) ∷ peer_transports db peers
  ]
]

abbrev pub or_zero : Option ℕ → ℕ
or_zero none = 0
or_zero (some n) = n

-- The rest of `ReqConfig::execute`: the peers were listed before an address was chosen.
unfoldable pub respond_config :
    Database → VlinkNetwork → VlinkNetwork → ClientRequest → VlinkPeer → ℕ → Reply
respond_config db before network ctx peer addr = elim (db.transports peer.model.id) [
  | none ↦ (network, err db_error)
  | some transports ↦
      let body = resp_config (record {
        network_id = network.network_id;
        address = addr;
        mask = network.cidr.1;
        network = network.cidr.0;
        port = or_zero peer.model.port;
        peers = listed before.peers;
        extra_transports = transports;
        peer_extra_transports = peer_transports db network.peers;
      }) in
      (network, ok (record { connect = ctx.connect; id = some ctx.id; body = body } ∷ []))
]

-- `ReqConfig::execute` where no other request comes between its steps.
unfoldable pub config_for : Database → VlinkNetwork → ClientRequest → Choice → Reply
config_for db network ctx (fails e) = (network, err e)
config_for db network ctx (keeps peer addr) = respond_config db network network ctx peer addr
config_for db network ctx (chooses peer addr) =
    if not (db.update_ip peer.model.id (show_ip addr))
    then (network, err db_error)
    else respond_config db network (write_address network peer addr) ctx peer addr

unfoldable pub execute_config : Database → VlinkNetwork → ClientRequest → Reply
execute_config db network ctx = config_for db network ctx (choose_address db network ctx.pub_key)
