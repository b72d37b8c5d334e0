-- ===== src/Daemon/Examples.antt =====
-- The theorems on the daemon at concrete networks and connections.
use vlink.Prelude.{
  ℕ, replicate, true, List, [], ◌∷◌, ◌++◌, Option, none, some, ◌≡◌, inr, refl, arith,
}
use vlink.Prelude.Words.{add64}
use vlink.Outcome.{Outcome, ok, err, panic}
use vlink.Head.{
  Delivery, VlinkNetwork, peer_enter, peer_leave, resp_config, resp_handshake, lookup, new_peers,
  peer_of_model, collect, put, change, is_online, refresh_model,
}
use vlink.Head.Address.{show_ip, generate_ip, find_free, peer_ips, none_equal, parse_ip}
use vlink.Head.Requests.{ToServerData, config_request}
use vlink.Head.Config.{
  execute_config, config_for, choose_address, choose_for, write_address, with_address,
  respond_config, listed, peer_transports,
}
use vlink.Head.Dispatch.{dispatch, process}
use vlink.Head.Joined.{IsJoined}
use vlink.Head.Examples.{
  ann, ben, model, db, registered, loaded, shaken-networks, shaken-reached, enters,
}
use vlink.Bytes.{bytes_eq}
use vlink.Noise.Examples.{stand_in, alice}
use vlink.Cidr.Examples.{Range, ranges}
use vlink.Noise.Crypto.{local_secret}
use vlink.Peer.{new_peer, update_endpoint}
use vlink.Peers.{PeerEntry, PeerList, PeerConfig, new_list, put_entry, entry_or_insert, secret_of}
use vlink.Daemon.Events.{handle_cmds, handle_cmd, handle_to_client_data, mark_online, change_peer}
use vlink.Daemon.Online.{IsFlagged, last_said, handle_cmds-IsFlagged}
use vlink.Daemon.Relay.{Reachable, Relays, select_tick}
use vlink.Daemon.Relaying.{asked, select_tick-third}
use vlink.Daemon.{
  Crates, DaemonError, ArgConfig, NetworkConfig, NetworkCtrlCmd, connected, to_client_data,
}
use vlink.Daemon.Config.{
  request_for_config, config_of_resp, add_peers, config_port, default_port, key_of_bytes,
}
use vlink.Daemon.Connect.{to_client_handler, request}
use vlink.Daemon.Connect.Numbers.{request-answered, request-mistaken}
use vlink.Daemon.Client.{
  unreachable, uninformed, accepted, reconnect, commands, announced, successes, commands-reconnect,
}
use vlink.Daemon.Joining.{entering, process-IsJoined}

abbrev crates : Crates
crates = record {
  decode_base64 = λ text. some text;
  encode_base64 = λ key. key;
  parse_ip_addr = λ text. none;
  endpoint_for = λ ip port. port;
  new_network = λ address prefix. some (address, prefix);
  tun_address = λ address. address;
  reply_message = λ src server. src ++ server;
}

-- The configuration of ann's network, with her address in it.
abbrev configured : VlinkNetwork
configured = record loaded {
  peers =
      (
        ann,
        record {
          pub_key = ann;
          model = record (model ann) { ip = some (show_ip 2) };
          online_info = none;
        },
      )
      ∷ (ben, record { pub_key = ben; model = model ben; online_info = none })
      ∷ [];
}

abbrev answer : Delivery
answer = record {
  connect = 7;
  id = some 5;
  body = resp_config (record {
    network_id = 1;
    address = 2;
    mask = 30;
    network = 0;
    port = 0;
    peers = [];
    extra_transports = [];
    peer_extra_transports = [];
  });
}

config-answered : dispatch db loaded enters config_request ≡ (configured, ok (answer ∷ []))
unfolding dispatch execute_config config_for choose_address choose_for write_address with_address
    respond_config new_peers peer_of_model collect put change lookup bytes_eq generate_ip find_free
    peer_ips none_equal parse_ip show_ip is_online refresh_model listed peer_transports
config-answered = refl

abbrev args : ArgConfig
args = record { endpoint_addr = none; port = none }

abbrev config : NetworkConfig Range
config = record {
  device_config = record {
    private_key = alice;
    port = 51820;
    peers = [];
    address = 2;
    network = (0, 30);
  };
  arg_config = args;
  transports = [];
  peer_extra_transports = [];
}

config-made : request_for_config ranges crates alice args answer.body ≡ ok config
unfolding request_for_config config_of_resp add_peers config_port default_port
config-made = refl

process-IsJoined_example :
    (sent : List Delivery) × ((dispatch db configured enters
        (entering ranges crates config 51820 [])).1
      ≡ ok sent)
    × IsJoined
        (process db configured enters (entering ranges crates config 51820 [])).0
        ann
        (show_ip 2)
process-IsJoined_example =
    process-IsJoined ranges crates registered db 1 loaded configured enters enters answer alice args
      config 51820 [] shaken-reached shaken-networks config-answered config-made refl refl

commands-reconnect_example :
    commands (reconnect 0 true (unreachable ∷ accepted ∷ accepted ∷ uninformed ∷ accepted ∷ []))
    ≡ announced (successes (unreachable ∷ accepted ∷ accepted ∷ uninformed ∷ accepted ∷ []))
commands-reconnect_example =
    commands-reconnect (unreachable ∷ accepted ∷ accepted ∷ uninformed ∷ accepted ∷ [])

-- A client whose counter is 1, behind one message of the server, and before one.
request-answered_example :
    (request true 1 (
      to_client_handler 0
        ((none, peer_leave ben) ∷ [] ++ (some (add64 1 1), resp_handshake true) ∷ []))).1
    ≡ ok (resp_handshake true)
request-answered_example =
    request-answered 1 0 ((none, peer_leave ben) ∷ []) [] (resp_handshake true) (omega arith)
      (inr (omega arith)) tt

request-mistaken_example :
    (request true 0 (
      to_client_handler 0
        ([] ++ (none, peer_leave ben) ∷ (some (add64 0 1), resp_handshake true) ∷ []))).1
    ≡ ok (peer_leave ben)
request-mistaken_example =
    request-mistaken 0 0 [] ((some (add64 0 1), resp_handshake true) ∷ []) (peer_leave ben)
      (omega arith) (omega arith) tt

-- A device with one peer.
abbrev key : List ℕ
key = replicate 32 7

abbrev peer_config : PeerConfig Range
peer_config = record {
  public_key = key;
  allowed_ips = [];
  endpoint = none;
  preshared_key = none;
  is_online = true;
  persistent_keepalive = none;
}

abbrev nobody : PeerList Range (Range → Option (List ℕ))
nobody = new_list ranges stand_in 7

abbrev known : PeerEntry Range
known =
    entry_or_insert ranges stand_in nobody
      (secret_of ranges stand_in (local_secret stand_in alice) peer_config) peer_config 0

abbrev peers : PeerList Range (Range → Option (List ℕ))
peers = put_entry ranges stand_in nobody key known

-- The peer leaves and enters again, and another one leaves.
abbrev cmds : List NetworkCtrlCmd
cmds =
    to_client_data (peer_leave key)
    ∷ connected
    ∷ to_client_data (
        peer_enter
          (record { pub_key = key; ip = []; endpoint_addr = none; port = 0; online = true }))
    ∷ to_client_data (peer_leave (replicate 32 8))
    ∷ []

abbrev handled : Outcome DaemonError (PeerList Range (Range → Option (List ℕ)) × List ToServerData)
handled = handle_cmds ranges stand_in crates args 2 80 [] peers cmds

abbrev handled_peers :
    Outcome DaemonError (PeerList Range (Range → Option (List ℕ)) × List ToServerData)
    → PeerList Range (Range → Option (List ℕ)) × List ToServerData
handled_peers (ok r) = r
handled_peers (err e) = (peers, [])
handled_peers panic = (peers, [])

handled-ok : handled ≡ ok (handled_peers handled)
unfolding handle_cmds handle_cmd handle_to_client_data mark_online change_peer key_of_bytes
handled-ok = refl

handle_cmds-IsFlagged_example :
    IsFlagged ranges stand_in crates
      (handled_peers handled).0
      key
      (last_said ranges stand_in crates key cmds known.peer.online)
unfolding new_list bytes_eq
handle_cmds-IsFlagged_example =
    handle_cmds-IsFlagged ranges stand_in crates args 2 80 [] peers (handled_peers handled).0
      (handled_peers handled).1 cmds key known.peer.online handled-ok (known, refl, refl)

-- A relay that can be reached.
abbrev world : Reachable
world = record {
  relay = λ server. true;
  relay_endpoint = λ server target. 9;
  nat_udp = λ endpoint. none;
  nat_tcp = λ endpoint. none;
}

abbrev relays : Relays Range (Range → Option (List ℕ))
relays = record { derp_client_map = []; peers = peers }

-- The peer has no endpoint, and its relay is not connected.
select_tick-third_example :
    (first second : Relays Range (Range → Option (List ℕ))) × (select_tick ranges stand_in crates
        world ann relays key []
      ≡ ok (first, asked ranges stand_in crates world ann key ∷ []))
    × (select_tick ranges stand_in crates world ann first key []
        ≡ ok (second, asked ranges stand_in crates world ann key ∷ []))
    × (select_tick ranges stand_in crates world ann second key [] ≡ ok (second, []))
    × (first.peers ≡ relays.peers)
    × (second.peers.peers key ≡ some (record known { peer = update_endpoint known.peer 9 }))
unfolding new_list lookup bytes_eq entry_or_insert new_peer
select_tick-third_example =
    select_tick-third ranges stand_in crates world ann key relays known refl refl refl refl refl
