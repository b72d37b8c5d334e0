-- ===== src/Head/Requests.antt =====
-- The handlers of headlink/src/client/handler/, but for the one of a configuration. A handler gives the
-- network, whether it succeeds or not, and what it sends.
use vlink.Prelude.{
  ℕ, Bool, true, false, not, List, [], ◌∷◌, ◌++◌, Option, none, some, if◌then◌else◌, ltb,
}
use vlink.Bytes.{bytes_eq}
use vlink.Outcome.{Outcome, ok, err}
use vlink.Head.{
  OnlineInfo, VlinkPeer, VlinkNetwork, Delivery, peer_enter, update_extra_endpoint, require_reply,
  is_online, lookup, change, put, collect, broadcast, broadcast_to, offline,
}

-- The errors of a handler, without their texts.
pub data ExecuteError : Type 0 where
  message str_message db_error anyhow_error parse_error peer_not_found ip_not_match ip_not_found :
      ExecuteError

-- The client of a request: its key, its connection and the number of the request.
pub record ClientRequest : Type 0 where
  pub id : ℕ
  pub pub_key : List ℕ
  pub connect : ℕ

pub record PeerEnter : Type 0 where
  pub ip : List ℕ
  pub endpoint_addr : Option (List ℕ)
  pub port : ℕ
  pub extra_endpoints : List (List ℕ × List ℕ)

-- `ToServerData`, of what the dispatcher knows, and the rest.
pub data ToServerData : Type 0 where
  enter_request : PeerEnter → ToServerData
  leave_request : ToServerData
  forward_request : Option (List ℕ) → List ℕ → ToServerData
  config_request : ToServerData
  endpoint_request : List ℕ → List ℕ → ToServerData
  complete_request : List ℕ → List ℕ → ToServerData
  other_request : ToServerData

abbrev pub Reply : Type 0
Reply = VlinkNetwork × Outcome ExecuteError (List Delivery)

-- `a < b` on text, by its bytes.
unfoldable pub text_lt : List ℕ → List ℕ → Bool
text_lt cs [] = false
text_lt [] (b ∷ bs) = true
text_lt (a ∷ cs) (b ∷ bs) =
    let rest = text_lt cs bs in if ltb a b then true else if ltb b a then false else rest

-- `union_pub_key` of helpers.rs
unfoldable pub union_pub_key : List ℕ → List ℕ → List ℕ × Bool
union_pub_key a b = if text_lt a b then (a ++ b, true) else (b ++ a, false)

abbrev pub or_empty : Option (List ℕ) → List ℕ
or_empty none = []
or_empty (some text) = text

-- `PeerEnter::execute`, for the peer that the network has for the key
abbrev pub entered : VlinkNetwork → ClientRequest → PeerEnter → VlinkNetwork
entered network ctx entry =
    let info : OnlineInfo = record {
      connect = ctx.connect;
      port = entry.port;
      endpoint_addr = entry.endpoint_addr;
      extra_endpoints = collect [] entry.extra_endpoints;
    } in
    record network {
      peers = change network.peers ctx.pub_key (λ p. record p { online_info = some info });
    }

unfoldable pub enter_for : VlinkNetwork → ClientRequest → PeerEnter → Option VlinkPeer → Reply
enter_for network ctx entry none = (network, err peer_not_found)
enter_for network ctx entry (some peer) =
    let body = peer_enter (record {
      pub_key = ctx.pub_key;
      ip = entry.ip;
      endpoint_addr = entry.endpoint_addr;
      port = entry.port;
      online = true;
    }) in
    if not (bytes_eq entry.ip (or_empty peer.model.ip))
    then (network, err ip_not_match)
    else (entered network ctx entry, ok (broadcast (entered network ctx entry) body ctx.pub_key))

unfoldable pub execute_enter : VlinkNetwork → ClientRequest → PeerEnter → Reply
execute_enter network ctx entry = enter_for network ctx entry (lookup network.peers ctx.pub_key)

-- `PeerLeave::execute`
unfoldable pub execute_leave : VlinkNetwork → ClientRequest → Reply
execute_leave network ctx = let left = offline network ctx.pub_key in (left.0, ok left.1)

-- `PeerForward::execute`
unfoldable pub execute_forward : VlinkNetwork → Option (List ℕ) → List ℕ → Reply
execute_forward network none target = (network, ok [])
execute_forward network (some reply) target =
    (network, ok (broadcast_to network (require_reply reply) (target ∷ [])))

-- `DevHandshakeComplete::execute`
unfoldable pub execute_complete : VlinkNetwork → ClientRequest → List ℕ → List ℕ → Reply
execute_complete network ctx target proto =
    let key = union_pub_key ctx.pub_key target in
    (
      record network {
        connects = λ k.
            if bytes_eq k key.0
            then some (record { direction = key.1; proto = proto })
            else network.connects k;
      },
      ok [],
    )

-- The peers that a new endpoint is sent to: online, not connected to this one, and only where the
-- protocol is the default one.
unfoldable pub broad_to : VlinkNetwork → List ℕ → Bool → List (List ℕ × VlinkPeer) → List (List ℕ)
broad_to network key default [] = []
broad_to network key default ((k, peer) ∷ peers) =
    let rest = broad_to network key default peers in
    if bytes_eq k key
    then rest
    else if not (is_online peer)
    then rest
    else elim (network.connects (union_pub_key key k).0) [
      | none ↦ if default then k ∷ rest else rest
      | some connect ↦ rest
    ]

abbrev pub is_default : VlinkPeer → List ℕ → Bool
is_default peer proto = elim peer.model.default_proto [
  | none ↦ false
  | some default ↦ bytes_eq default proto
]

-- `ExtraEndpoint::execute`, for the peer that the network has for the key; the map of endpoints is shared by
-- every copy of the peer.
abbrev pub with_endpoint : List ℕ → List ℕ → VlinkPeer → VlinkPeer
with_endpoint proto endpoint peer = elim peer.online_info [
  | none ↦ peer
  | some info ↦ record peer {
    online_info = some (record info { extra_endpoints = put info.extra_endpoints proto endpoint });
  }
]

unfoldable pub endpoint_for :
    VlinkNetwork → ClientRequest → List ℕ → List ℕ → Option VlinkPeer → Reply
endpoint_for network ctx proto endpoint none = (network, err peer_not_found)
endpoint_for network ctx proto endpoint (some peer) =
    let known = record network {
      peers = change network.peers ctx.pub_key (with_endpoint proto endpoint);
    } in
    let targets = broad_to known ctx.pub_key (is_default peer proto) known.peers in
    (known, ok (broadcast_to known (update_extra_endpoint peer.pub_key proto endpoint) targets))

unfoldable pub execute_endpoint : VlinkNetwork → ClientRequest → List ℕ → List ℕ → Reply
execute_endpoint network ctx proto endpoint =
    endpoint_for network ctx proto endpoint (lookup network.peers ctx.pub_key)
