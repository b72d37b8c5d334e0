-- ===== src/Head/Examples.antt =====
-- The theorems on the head server at a network of two peers.
use vlink.Prelude.{
  ℕ, true, List, [], ◌∷◌, drop, map, Option, none, some, ◌≡◌, ◌≢◌, refl, sym, ap, get_or, contains,
  arith,
}
use vlink.Bytes.{bytes_eq}
use vlink.Outcome.{err}
use vlink.Head.{
  PeerModel, OnlineInfo, VlinkPeer, VlinkNetwork, is_online, lookup, new_peers, peer_of_model,
  collect, put, change,
}
use vlink.Head.Address.{show_ip, peer_ips, none_equal, find_free, generate_ip}
use vlink.Head.Requests.{
  ToServerData, config_request, ClientRequest, PeerEnter, enter_request, leave_request,
  execute_enter, enter_for,
}
use vlink.Head.Config.{Database, chooses, choose_address, write_address}
use vlink.Head.Dispatch.{dispatch, process}
use vlink.Head.Clients.{
  Rows, Server, already_connected, new_server, put_network, insert_client, handshake0, disconnect,
  find_network, set_client_id, get_network,
}
use vlink.Head.Presence.{IsOffline, rejected-IsOffline}
use vlink.Head.Choice.{generate_ip-free}
use vlink.Head.Race.{Holds, chosen-Holds}
use vlink.Head.Reach.{Reach, start, next, connects, shakes, serves, Reach-IsOwn, Reach-Kept}

abbrev pub model : List ℕ → PeerModel
model key = record { id = 1; pub_key = key; ip = none; default_proto = none; port = none }

abbrev info : OnlineInfo
info = record { connect = 3; port = 80; endpoint_addr = none; extra_endpoints = [] }

abbrev pub ann : List ℕ
ann = 97 ∷ []

abbrev pub ben : List ℕ
ben = 98 ∷ []

-- A peer that is online, and one that is not.
abbrev peer_a : VlinkPeer
peer_a = record { pub_key = ann; model = model ann; online_info = some info }

abbrev peer_b : VlinkPeer
peer_b = record { pub_key = ben; model = model ben; online_info = none }

abbrev network : VlinkNetwork
network = record {
  network_id = 1;
  cidr = (0, 30);
  peers = (ann, peer_a) ∷ (ben, peer_b) ∷ [];
  connects = λ k. none;
}

abbrev pub db : Database
db = record {
  addresses = λ cidr. 0 ∷ 1 ∷ 2 ∷ 3 ∷ [];
  update_ip = λ id ip. true;
  transports = λ id. some [];
  order = λ endpoints. endpoints;
}

abbrev rows : Rows
rows = record {
  token_network = λ token. none;
  peer_network = λ key. some 1;
  network_row = λ id. none;
}

abbrev server : Server
server = insert_client (put_network new_server 1 network) 7

ann-ne-ben : ann ≢ ben
ann-ne-ben e = let h : 97 ≡ 98 = ap (λ (xs : List ℕ). get_or xs 0 0) e in omega (arith, h)

rejected-IsOffline_example :
    ((handshake0 rows server 7 ann none).1 ≡ err already_connected)
    × IsOffline rows server 7 1 ann network peer_a
        (disconnect rows (handshake0 rows server 7 ann none).0 7).0
unfolding new_server insert_client lookup bytes_eq is_online
rejected-IsOffline_example =
    rejected-IsOffline rows server 7 1 ann network peer_a refl refl refl refl refl

generate_ip-free_example :
    (contains (drop 2 (0 ∷ 1 ∷ 2 ∷ 3 ∷ [])) 2 ≡ true) × (peer_a.model.ip ≢ some (show_ip 2))
unfolding generate_ip find_free peer_ips none_equal lookup bytes_eq
generate_ip-free_example =
    generate_ip-free (0 ∷ 1 ∷ 2 ∷ 3 ∷ []) network.peers 2 ann peer_a refl refl

chosen-Holds_example :
    (choose_address db network ann ≡ chooses peer_a 2)
    × (choose_address db network ben ≡ chooses peer_b 2)
    × Holds (write_address (write_address network peer_a 2) peer_b 2) ann (show_ip 2)
    × Holds (write_address (write_address network peer_a 2) peer_b 2) ben (show_ip 2)
unfolding generate_ip find_free peer_ips none_equal lookup bytes_eq
chosen-Holds_example =
    chosen-Holds db network ann ben peer_a peer_b 2 (λ e. ann-ne-ben e) refl refl refl refl refl
      refl refl

abbrev ctx : ClientRequest
ctx = record { id = 5; pub_key = ben; connect = 4 }

abbrev entry : PeerEnter
entry = record { ip = []; endpoint_addr = none; port = 90; extra_endpoints = [] }

-- A server where ann has connected and shaken hands, and one where she has entered her network.
abbrev pub registered : Rows
registered = record {
  token_network = λ token. none;
  peer_network = λ key. some 1;
  network_row = λ id. some ((0, 30), model ann ∷ model ben ∷ []);
}

abbrev pub loaded : VlinkNetwork
loaded = record {
  network_id = 1;
  cidr = (0, 30);
  peers = new_peers (map peer_of_model (model ann ∷ model ben ∷ []));
  connects = λ k. none;
}

abbrev pub shaken : Server
shaken = (handshake0 registered (insert_client new_server 7) 7 ann none).0

abbrev pub enters : ClientRequest
enters = record { id = 5; pub_key = ann; connect = 7 }

pub shaken-networks : shaken.networks 1 ≡ some loaded
unfolding handshake0 find_network set_client_id get_network insert_client new_server
shaken-networks = refl

shaken-clients : shaken.clients 7 ≡ some (some (ann, 1))
unfolding handshake0 find_network set_client_id get_network insert_client new_server
shaken-clients = refl

pub shaken-reached : Reach registered db shaken
shaken-reached =
    next (next start (connects new_server 7)) (shakes (insert_client new_server 7) 7 ann none)

abbrev online : VlinkNetwork
online = (process db loaded enters (enter_request entry)).0

online-reached : Reach registered db (put_network shaken 1 online)
online-reached =
    next shaken-reached
      (serves shaken 7 1 loaded enters (enter_request entry) shaken-clients shaken-networks)

abbrev ann_online : VlinkPeer
ann_online = record {
  pub_key = ann;
  model = model ann;
  online_info =
      some (record { connect = 7; port = 90; endpoint_addr = none; extra_endpoints = [] });
}

ann-online : lookup online.peers ann ≡ some ann_online
unfolding process dispatch execute_enter enter_for new_peers peer_of_model collect put change lookup
    bytes_eq
ann-online = refl

Reach-IsOwn_example : (online.network_id ≡ 1) × (ann_online.model.pub_key ≡ ann)
Reach-IsOwn_example =
    Reach-IsOwn registered db 1 online ann ann_online online-reached refl ann-online

Reach-Kept_example :
    lookup (process db online enters leave_request).0.peers ben ≡ lookup online.peers ben
Reach-Kept_example =
    Reach-Kept registered db 1 online enters ben leave_request online-reached refl
      (λ e. ann-ne-ben (sym e))

-- A client that enters, sends a message without data, asks for a configuration, and goes.
abbrev messages : List (ℕ × Option ToServerData)
messages = (2, some (enter_request entry)) ∷ (3, none) ∷ (4, some config_request) ∷ []
