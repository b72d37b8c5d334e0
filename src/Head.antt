-- ===== src/Head.antt =====
-- The head server, headlink/src/: what a network knows of its peers (network.rs, peer.rs, server.rs). Text is
-- the list of its bytes, and a connection is the number of its client. A map whose entries are listed
-- is an association list; what is sent is a list of deliveries, in the order of the list.
pub mod Maps
pub mod Address
pub mod Requests
pub mod Config
pub mod Dispatch
pub mod Clients
pub mod Keys
pub mod Presence
pub mod Choice
pub mod Race
pub mod Isolation
pub mod Keyed
pub mod Reach
pub mod Serving
pub mod Served
pub mod Keeping
pub mod Refining
pub mod Text
pub mod Joined
pub mod Examples
use vlink.Prelude.{
  ℕ, Bool, true, false, not, List, [], ◌∷◌, ◌++◌, map, Option, none, some, if◌then◌else◌,
}
use vlink.Bytes.{bytes_eq}

-- `PeerModel`, a row of the table of peers, with the columns that the server reads. A port is its bit
-- pattern of 32 bits.
pub record PeerModel : Type 0 where
  pub id : ℕ
  pub pub_key : List ℕ
  pub ip : Option (List ℕ)
  pub default_proto : Option (List ℕ)
  pub port : Option ℕ

pub record OnlineInfo : Type 0 where
  pub connect : ℕ
  pub port : ℕ
  pub endpoint_addr : Option (List ℕ)
  pub extra_endpoints : List (List ℕ × List ℕ)

pub record VlinkPeer : Type 0 where
  pub pub_key : List ℕ
  pub model : PeerModel
  pub online_info : Option OnlineInfo

-- `PeerConnect`: how two peers reach each other.
pub record PeerConnect : Type 0 where
  pub direction : Bool
  pub proto : List ℕ

-- `VlinkNetworkInner`, with the network's address and its prefix.
pub record VlinkNetwork : Type 0 where
  pub network_id : ℕ
  pub cidr : ℕ × ℕ
  pub peers : List (List ℕ × VlinkPeer)
  pub connects : List ℕ → Option PeerConnect

unfoldable pub is_online : VlinkPeer → Bool
is_online peer = elim peer.online_info [ none ↦ false | some info ↦ true ]

-- `VlinkPeer::from`
unfoldable pub peer_of_model : PeerModel → VlinkPeer
peer_of_model model = record { pub_key = model.pub_key; model = model; online_info = none }

-- `get`, `get_mut` and `insert` of a map.
unfoldable pub lookup {ℓ} : {A : Type ℓ} → List (List ℕ × A) → List ℕ → Option A
lookup [] key = none
lookup ((k, v) ∷ entries) key = if bytes_eq k key then some v else lookup entries key

unfoldable pub change {ℓ} : {A : Type ℓ} → List (List ℕ × A) → List ℕ → (A → A) → List (List ℕ × A)
change [] key f = []
change ((k, v) ∷ entries) key f =
    let rest = change entries key f in if bytes_eq k key then (k, f v) ∷ entries else (k, v) ∷ rest

unfoldable pub put {ℓ} : {A : Type ℓ} → List (List ℕ × A) → List ℕ → A → List (List ℕ × A)
put [] key v = (key, v) ∷ []
put ((k, w) ∷ entries) key v =
    let rest = put entries key v in if bytes_eq k key then (k, v) ∷ entries else (k, w) ∷ rest

-- `RwMap::from`, where a later entry of a key replaces an earlier one.
unfoldable pub collect {ℓ} :
    {A : Type ℓ} → List (List ℕ × A) → List (List ℕ × A) → List (List ℕ × A)
collect entries [] = entries
collect entries ((k, v) ∷ more) = collect (put entries k v) more

-- `Peers::new`
unfoldable pub new_peers : List VlinkPeer → List (List ℕ × VlinkPeer)
new_peers peers = collect [] (map (λ (p : VlinkPeer). (p.model.pub_key, p)) peers)

-- `Peers::offline` and `Peers::refresh_model`
unfoldable pub peers_offline : List (List ℕ × VlinkPeer) → List ℕ → List (List ℕ × VlinkPeer)
peers_offline peers key = change peers key (λ p. record p { online_info = none })

unfoldable pub refresh_model : List (List ℕ × VlinkPeer) → PeerModel → List (List ℕ × VlinkPeer)
refresh_model peers model = change peers model.pub_key (λ p. record p { model = model })

-- `BcPeerEnter`, without `last_con_type` and `mode`, which are constant.
pub record BcPeerEnter : Type 0 where
  pub pub_key : List ℕ
  pub ip : List ℕ
  pub endpoint_addr : Option (List ℕ)
  pub port : ℕ
  pub online : Bool

-- `RespConfig`, with a triple for a `PeerExtraTransport`.
pub record RespConfig : Type 0 where
  pub network_id : ℕ
  pub address : ℕ
  pub mask : ℕ
  pub network : ℕ
  pub port : ℕ
  pub peers : List BcPeerEnter
  pub extra_transports : List (List ℕ × List ℕ)
  pub peer_extra_transports : List (List ℕ × List ℕ × List ℕ)

-- `ToClientData`, of what the handlers send.
pub data ToClientData : Type 0 where
  peer_enter : BcPeerEnter → ToClientData
  peer_leave : List ℕ → ToClientData
  update_extra_endpoint : List ℕ → List ℕ → List ℕ → ToClientData
  require_reply : List ℕ → ToClientData
  resp_config : RespConfig → ToClientData
  resp_handshake : Bool → ToClientData
  client_error : ToClientData

-- A message for a connection, with the number of the request that it answers, if any.
pub record Delivery : Type 0 where
  pub connect : ℕ
  pub id : Option ℕ
  pub body : ToClientData

-- `broadcast_by`
unfoldable pub broadcast_by :
    List (List ℕ × VlinkPeer) → ToClientData → (List ℕ → VlinkPeer → Bool) → List Delivery
broadcast_by [] body predict = []
broadcast_by ((k, peer) ∷ peers) body predict =
    let rest = broadcast_by peers body predict in
    if not (predict k peer) then rest else elim peer.online_info [
      | none ↦ rest
      | some info ↦ record { connect = info.connect; id = none; body = body } ∷ rest
    ]

-- Whether a list of keys holds a key.
unfoldable pub includes : List (List ℕ) → List ℕ → Bool
includes [] key = false
includes (k ∷ keys) key = if bytes_eq k key then true else includes keys key

unfoldable pub broadcast_to : VlinkNetwork → ToClientData → List (List ℕ) → List Delivery
broadcast_to network body include = elim include [
  | [] ↦ []
  | k ∷ keys ↦ broadcast_by network.peers body (λ key peer. includes (k ∷ keys) key)
]

unfoldable pub broadcast : VlinkNetwork → ToClientData → List ℕ → List Delivery
broadcast network body exclude =
    broadcast_by network.peers body (λ key peer. not (bytes_eq exclude key))

unfoldable pub broadcast_excludes : VlinkNetwork → ToClientData → List (List ℕ) → List Delivery
broadcast_excludes network body exclude =
    broadcast_by network.peers body (λ key peer. not (includes exclude key))

-- `VlinkNetworkInner::offline`
unfoldable pub offline : VlinkNetwork → List ℕ → VlinkNetwork × List Delivery
offline network key =
    let left = record network { peers = peers_offline network.peers key } in
    (left, broadcast left (peer_leave key) key)
