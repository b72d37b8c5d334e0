-- ===== src/Peers.antt =====
-- The peers of a device: vlink-tun/src/device/peer/peers.rs, and `reset_peers` and `insert_peer` of
-- device/mod.rs. The hash map is a function, a hash set is a list, and a reference to a peer is its key.
-- The registry of sessions is the field `sessions`.
pub mod Routes
pub mod Lookup
mod Examples
use vlink.Prelude.{ℕ, Bool, true, false, List, [], ◌∷◌, Option, none, some, if◌then◌else◌}
use vlink.Outcome.{Outcome, ok, ◌>>=◌}
use vlink.Protocol.{Error}
use vlink.Bytes.{bytes_eq}
use vlink.Noise.Crypto.{Primitives, LocalStaticSecret, PeerStaticSecret, with_peer, set_psk}
use vlink.Cidr.{IpAddr, Networks, lookup_ip}
use vlink.Sessions.{Session, SessionIndex, new_index, get_by_index, clear}
use vlink.Peer.{Peer, Effect, new_peer, put_sessions}

pub record PeerEntry (Net : Type 0) : Type 0 where
  pub peer : Peer
  pub allowed_ips : List Net

pub record PeerList (Net Table : Type 0) : Type 0 where
  pub sessions : SessionIndex
  pub ips : Table
  pub peers : List ℕ → Option (PeerEntry Net)

-- `PeerConfig`, with the number of the sender for the address that is configured. The three fields that
-- no operation here reads are left out: `lazy`, `no_encrypt`, and `ip_addr`, which is text for the log.
pub record PeerConfig (Net : Type 0) : Type 0 where
  pub public_key : List ℕ
  pub allowed_ips : List Net
  pub endpoint : Option ℕ
  pub preshared_key : Option (List ℕ)
  pub is_online : Bool
  pub persistent_keepalive : Option ℕ

module _ {Net Table : Type 0} (n : Networks Net Table) (p : Primitives) where
  -- The list with another entry under a key.
  abbrev pub put_entry : PeerList Net Table → List ℕ → PeerEntry Net → PeerList Net Table
  put_entry list key entry = record list {
    peers = λ k. if bytes_eq k key then some entry else list.peers k;
  }

  -- `PeerList::new`, with the random first index.
  unfoldable pub new_list : ℕ → PeerList Net Table
  new_list start = record { sessions = new_index start; ips = n.new_table; peers = λ k. none }

  unfoldable pub get_by_key : PeerList Net Table → List ℕ → Option Peer
  get_by_key list key = elim (list.peers key) [ none ↦ none | some entry ↦ some entry.peer ]

  unfoldable pub get_by_ip : PeerList Net Table → IpAddr → Option (List ℕ)
  get_by_ip list ip = lookup_ip n list.ips ip

  unfoldable pub get_session_by_index : PeerList Net Table → ℕ → Option (Session × Peer)
  get_session_by_index list i = elim (get_by_index list.sessions i) [
    | none ↦ none
    | some session ↦ elim (get_by_key list session.secret.public) [
      | none ↦ none
      | some peer ↦ some (session, peer)
    ]
  ]

  unfoldable pub clear_list : PeerList Net Table → PeerList Net Table
  clear_list list = record list {
    sessions = clear list.sessions;
    ips = n.new_table;
    peers = λ k. none;
  }

  -- `self.ips.insert(cidr, ..)` for each of the networks.
  unfoldable pub route_all : Table → List Net → List ℕ → Table
  route_all table [] key = table
  route_all table (net ∷ nets) key = route_all (n.insert_net table net key) nets key

  -- The entry of a key, made when there is none.
  unfoldable pub entry_or_insert :
      PeerList Net Table → PeerStaticSecret → PeerConfig Net → ℕ → PeerEntry Net
  entry_or_insert list secret cfg now = elim (list.peers secret.public) [
    | some entry ↦ entry
    | none ↦ record {
      peer =
          new_peer p secret list.sessions cfg.endpoint cfg.persistent_keepalive cfg.is_online now;
      allowed_ips = cfg.allowed_ips;
    }
  ]

  -- `PeerList::insert` at the time `now`
  unfoldable pub insert_entry :
      PeerList Net Table → PeerStaticSecret → PeerConfig Net → ℕ → PeerList Net Table
  insert_entry list secret cfg now =
      let entry = entry_or_insert list secret cfg now in
      record (put_entry list secret.public entry) {
        ips = route_all list.ips entry.allowed_ips secret.public;
      }

  -- The secret towards a configured peer.
  unfoldable pub secret_of : LocalStaticSecret → PeerConfig Net → PeerStaticSecret
  secret_of local cfg =
      let secret = with_peer local cfg.public_key in
      elim cfg.preshared_key [ none ↦ secret | some psk ↦ set_psk secret psk ]

  unfoldable pub insert_peer :
      LocalStaticSecret → PeerList Net Table → PeerConfig Net → ℕ → PeerList Net Table
  insert_peer local list cfg now = insert_entry list (secret_of local cfg) cfg now

  unfoldable pub insert_peers :
      LocalStaticSecret → PeerList Net Table → List (PeerConfig Net) → ℕ → PeerList Net Table
  insert_peers local list [] now = list
  insert_peers local list (cfg ∷ cfgs) now =
      insert_peers local (insert_peer local list cfg now) cfgs now

  unfoldable pub reset_peers :
      LocalStaticSecret → PeerList Net Table → List (PeerConfig Net) → ℕ → PeerList Net Table
  reset_peers local list cfgs now = insert_peers local (clear_list list) cfgs now
