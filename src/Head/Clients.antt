-- ===== src/Head/Clients.antt =====
-- The clients of the head server: the handshake of headlink/src/client.rs, and the networks and clients of
-- server.rs and main.rs. The rows of the database are parameters; a key is the text that a client gives.
use vlink.Prelude.{ℕ, ◌==◌, Bool, List, [], map, Option, none, some, if◌then◌else◌}
use vlink.Outcome.{Outcome, ok, err, panic, ◌>>=◌}
use vlink.Head.{
  PeerModel, VlinkNetwork, Delivery, is_online, lookup, new_peers, peer_of_model, offline,
}

-- What the server reads: the network of a token that is not disabled, the network of a registered peer,
-- and a network with its peers.
pub record Rows : Type 0 where
  pub token_network : List ℕ → Option (Bool × ℕ)
  pub peer_network : List ℕ → Option ℕ
  pub network_row : ℕ → Option ((ℕ × ℕ) × List PeerModel)

pub data ServerError : Type 0 where
  no_token token_disabled not_registered no_network already_set already_connected : ServerError

-- `ClientConnect`, by its address, with the `client_id` once it is set.
pub record Server : Type 0 where
  pub clients : ℕ → Option (Option (List ℕ × ℕ))
  pub networks : ℕ → Option VlinkNetwork

-- A step that keeps the server where it fails.
abbrev pub Step {ℓ} : Type ℓ → Type ℓ
Step A = Server × Outcome ServerError A

abbrev pub and_then {ℓ κ} : {A : Type ℓ} {B : Type κ} → Step A → (Server → A → Step B) → Step B
and_then (server, ok a) f = f server a
and_then (server, err e) f = (server, err e)
and_then (server, panic) f = (server, panic)

unfoldable pub new_server : Server
new_server = record { clients = λ addr. none; networks = λ id. none }

abbrev pub put_network : Server → ℕ → VlinkNetwork → Server
put_network server id network = record server {
  networks = λ i. if i == id then some network else server.networks i;
}

unfoldable pub insert_client : Server → ℕ → Server
insert_client server addr = record server {
  clients = λ a. if a == addr then some none else server.clients a;
}

unfoldable pub remove_client : Server → ℕ → Server × Option (Option (List ℕ × ℕ))
remove_client server addr = (
  record server { clients = λ a. if a == addr then none else server.clients a },
  server.clients addr,
)

module _ (rows : Rows) where
  unfoldable pub get_network : Server → ℕ → Step VlinkNetwork
  get_network server id = elim (server.networks id) [
    | some network ↦ (server, ok network)
    | none ↦ elim (rows.network_row id) [
      | none ↦ (server, err no_network)
      | some row ↦
          let network : VlinkNetwork = record {
            network_id = id;
            cidr = row.0;
            peers = new_peers (map peer_of_model row.1);
            connects = λ k. none;
          } in
          (put_network server id network, ok network)
    ]
  ]

  -- The network that a client asks for, by its token or by its key.
  unfoldable pub find_network : Server → List ℕ → Option (List ℕ) → Step ℕ
  find_network server key (some token) = elim (rows.token_network token) [
    | none ↦ (server, err no_token)
    | some (disabled, id) ↦
        if disabled
        then (server, err token_disabled)
        else and_then (get_network server id) (λ found network. (found, ok network.network_id))
  ]
  find_network server key none = elim (rows.peer_network key) [
    | none ↦ (server, err not_registered)
    | some id ↦ (server, ok id)
  ]

  -- `client.client_id.set(..)`, which fails where it is set.
  unfoldable pub set_client_id : Server → ℕ → List ℕ × ℕ → Step (Unit {0})
  set_client_id server addr id = elim (server.clients addr) [
    | none ↦ (server, ok tt)
    | some (some old) ↦ (server, err already_set)
    | some none ↦ (
      record server { clients = λ a. if a == addr then some (some id) else server.clients a },
      ok tt,
    )
  ]

  -- Whether the key is online in the network.
  unfoldable pub check_offline : VlinkNetwork → List ℕ → Outcome ServerError (Unit {0})
  check_offline network key = elim (lookup network.peers key) [
    | none ↦ ok tt
    | some peer ↦ if is_online peer then err already_connected else ok tt
  ]

  -- `handshake0` with a handshake message.
  unfoldable pub handshake0 : Server → ℕ → List ℕ → Option (List ℕ) → Step (List ℕ × ℕ)
  handshake0 server addr key token = and_then (find_network server key token) (λ found network_id.
      and_then (set_client_id found addr (key, network_id)) (λ named u.
        and_then (get_network named network_id)
          (λ cached network. (cached, check_offline network key >>= λ v. ok (key, network_id)))))

  -- `network.offline` in the network of an id.
  unfoldable pub leave_network : List ℕ → ℕ → Step VlinkNetwork → Server × List Delivery
  leave_network key id (cached, err e) = (cached, [])
  leave_network key id (cached, panic) = (cached, [])
  leave_network key id (cached, ok network) =
      let left = offline network key in (put_network cached id left.0, left.1)

  unfoldable pub go_offline : Server × Option (Option (List ℕ × ℕ)) → Server × List Delivery
  go_offline (server, none) = (server, [])
  go_offline (server, some none) = (server, [])
  go_offline (server, some (some (key, id))) = leave_network key id (get_network server id)

  -- The end of a client's loop in `main`: the client goes, and its key goes offline.
  unfoldable pub disconnect : Server → ℕ → Server × List Delivery
  disconnect server addr = go_offline (remove_client server addr)
