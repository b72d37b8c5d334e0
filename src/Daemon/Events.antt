-- ===== src/Daemon/Events.antt =====
-- What the daemon does with the messages of the head server and the events of its device:
-- vlinkd/src/network/cmd_handler.rs, network/device_handler.rs, handler/connected.rs and the loop of
-- network/mod.rs. What is sent to the head server is a list of requests, in order.
use vlink.Prelude.{ℕ, Bool, true, false, List, [], ◌∷◌, ◌++◌, none, some, if◌then◌else◌}
use vlink.Outcome.{Outcome, ok, ◌>>=◌}
use vlink.Head.{
  ToClientData, peer_enter, peer_leave, update_extra_endpoint, require_reply, resp_config,
  resp_handshake, client_error,
}
use vlink.Head.Address.{show_ip}
use vlink.Head.Requests.{ToServerData, enter_request, complete_request, endpoint_request}
use vlink.Noise.Crypto.{Primitives}
use vlink.Cidr.{Networks}
use vlink.Peer.{Peer, set_online, clear_endpoint}
use vlink.Peers.{PeerList, put_entry}
use vlink.Daemon.{
  Crates, DaemonError, bad_key, bad_proto, ExtraProto, proto_name, proto_of_name, ExtraProtoStatus,
  same_proto, ArgConfig, NetworkCtrlCmd, req_info, change_ip, first_connected, connected,
  to_client_data,
}
use vlink.Daemon.Config.{try_option, key_of_bytes}

-- `DeviceEvent`
pub data DeviceEvent : Type 0 where
  handshake_complete : List ℕ → List ℕ → DeviceEvent
  extra_endpoint_success : List ℕ → List ℕ → DeviceEvent
  no_endpoint : List ℕ → List ℕ → DeviceEvent
  session_failed : List ℕ → DeviceEvent
  transport_failed : List ℕ → List ℕ → DeviceEvent
  peer_endpoint_failed : List ℕ → DeviceEvent

-- The state of the extension protocols.
abbrev pub Statuses : Type 0
Statuses = List (ExtraProto × ExtraProtoStatus)

unfoldable pub put_status : Statuses → ExtraProto → ExtraProtoStatus → Statuses
put_status [] proto status = (proto, status) ∷ []
put_status ((p, s) ∷ statuses) proto status =
    let rest = put_status statuses proto status in
    if same_proto p proto then (p, status) ∷ statuses else (p, s) ∷ rest

-- The endpoints of the protocols that have one.
unfoldable pub known_endpoints : Statuses → List (List ℕ × List ℕ)
known_endpoints [] = []
known_endpoints ((proto, status) ∷ statuses) = elim status.endpoint [
  | none ↦ known_endpoints statuses
  | some endpoint ↦ (proto_name proto, endpoint) ∷ known_endpoints statuses
]

-- `handler_connected`, for a device by its address and its port.
unfoldable pub handler_connected : ArgConfig → ℕ → ℕ → Statuses → ToServerData
handler_connected args tun_addr port statuses = enter_request (record {
  ip = show_ip tun_addr;
  endpoint_addr = args.endpoint_addr;
  port = port;
  extra_endpoints = known_endpoints statuses;
})

module _ {Net Table : Type 0} (n : Networks Net Table) (p : Primitives) (crates : Crates) where
  -- A change of the peer of a key, if the device has one.
  unfoldable pub change_peer : PeerList Net Table → List ℕ → (Peer → Peer) → PeerList Net Table
  change_peer list key f = elim (list.peers key) [
    | none ↦ list
    | some entry ↦ put_entry n p list key (record entry { peer = f entry.peer })
  ]

  -- `device.get_peer_by_key(..)` with the text of a key, and `set_online`.
  unfoldable pub mark_online :
      PeerList Net Table → List ℕ → Bool → Outcome DaemonError (PeerList Net Table)
  mark_online list text online = try_option bad_key (crates.decode_base64 text) >>= λ bytes.
      key_of_bytes bytes >>= λ key. ok (change_peer list key (λ peer. set_online peer online))

  unfoldable pub handle_to_client_data :
      PeerList Net Table → ToClientData → Outcome DaemonError (PeerList Net Table)
  handle_to_client_data list (peer_enter e) = mark_online list e.pub_key true
  handle_to_client_data list (peer_leave key) = mark_online list key false
  handle_to_client_data list (update_extra_endpoint key proto endpoint) = ok list
  handle_to_client_data list (require_reply r) = ok list
  handle_to_client_data list (resp_config c) = ok list
  handle_to_client_data list (resp_handshake b) = ok list
  handle_to_client_data list client_error = ok list

  -- A turn of the loop of `start`: the peers and what is sent.
  unfoldable pub handle_cmd :
      ArgConfig
      → ℕ
      → ℕ
      → Statuses
      → PeerList Net Table
      → NetworkCtrlCmd
      → Outcome DaemonError (PeerList Net Table × List ToServerData)
  handle_cmd args tun_addr port statuses list change_ip = ok (list, [])
  handle_cmd args tun_addr port statuses list (to_client_data body) =
      handle_to_client_data list body >>= λ after. ok (after, [])
  handle_cmd args tun_addr port statuses list connected =
      ok (list, handler_connected args tun_addr port statuses ∷ [])
  handle_cmd args tun_addr port statuses list first_connected = ok (list, [])
  handle_cmd args tun_addr port statuses list req_info = ok (list, [])

  -- The loop over commands, which an error ends.
  unfoldable pub handle_cmds :
      ArgConfig
      → ℕ
      → ℕ
      → Statuses
      → PeerList Net Table
      → List NetworkCtrlCmd
      → Outcome DaemonError (PeerList Net Table × List ToServerData)
  handle_cmds args tun_addr port statuses list [] = ok (list, [])
  handle_cmds args tun_addr port statuses list (cmd ∷ cmds) =
      handle_cmd args tun_addr port statuses list cmd >>= λ done.
      handle_cmds args tun_addr port statuses done.0 cmds >>= λ rest. ok (rest.0, done.1 ++ rest.1)

  -- `handle_device_event`
  unfoldable pub handle_device_event :
      Statuses
      → PeerList Net Table
      → DeviceEvent
      → Outcome DaemonError (Statuses × PeerList Net Table × List ToServerData)
  handle_device_event statuses list (handshake_complete key proto) =
      ok (statuses, list, complete_request (crates.encode_base64 key) proto ∷ [])
  handle_device_event statuses list (extra_endpoint_success proto endpoint) =
      try_option bad_proto (proto_of_name proto) >>= λ known.
      let status : ExtraProtoStatus = record {
        endpoint = some endpoint;
        running = true;
        failed = false;
      } in
      ok (put_status statuses known status, list, endpoint_request proto endpoint ∷ [])
  handle_device_event statuses list (session_failed peer) = ok (statuses, list, [])
  handle_device_event statuses list (no_endpoint key ip) = ok (statuses, list, [])
  handle_device_event statuses list (transport_failed proto endpoint) = ok (statuses, list, [])
  handle_device_event statuses list (peer_endpoint_failed key) =
      ok (statuses, change_peer list key clear_endpoint, [])

-- The failure of an extension protocol, the end of its task in `start_device`.
unfoldable pub stop_proto : Statuses → ExtraProto → Statuses
stop_proto [] proto = []
stop_proto ((p, s) ∷ statuses) proto =
    let rest = stop_proto statuses proto in
    if same_proto p proto
    then (p, record { endpoint = none; running = false; failed = true }) ∷ statuses
    else (p, s) ∷ rest
