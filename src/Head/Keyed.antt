-- ===== src/Head/Keyed.antt =====
-- The keys of a network: the peer under a key carries that key in its row.
use vlink.Prelude.{
  ℕ, none-some, some_inj, not, List, [], ◌∷◌, map, Option, none, some, ◌≡◌, refl, sym, ap, ◌∙◌, inl,
  inr, Bool-cases, Option-cases,
}
use vlink.Bytes.{bytes_eq, bytes_eq_iff}
use vlink.Head.{
  PeerModel, VlinkPeer, VlinkNetwork, lookup, change, put, collect, new_peers, peer_of_model,
  peers_offline, refresh_model, offline,
}
use vlink.Head.Address.{show_ip}
use vlink.Head.Requests.{
  ClientRequest, PeerEnter, ToServerData, enter_request, leave_request, forward_request,
  config_request, endpoint_request, complete_request, other_request, execute_enter, execute_leave,
  execute_forward, execute_complete, execute_endpoint, or_empty, enter_for, endpoint_for,
  with_endpoint,
}
use vlink.Head.Config.{
  Database, Choice, fails, keeps, chooses, choose_address, with_address, write_address,
  execute_config, config_for,
}
use vlink.Head.Dispatch.{dispatch, process}
use vlink.Head.Isolation.{respond_config-network}

abbrev pub IsKeyed : List (List ℕ × VlinkPeer) → Type 0
IsKeyed [] = Unit {0}
IsKeyed ((k, peer) ∷ peers) = (peer.model.pub_key ≡ k) × IsKeyed peers

pub lookup-IsKeyed :
    (peers : List (List ℕ × VlinkPeer)) (k : List ℕ) (peer : VlinkPeer)
    → IsKeyed peers
    → lookup peers k ≡ some peer
    → peer.model.pub_key ≡ k
unfolding lookup
lookup-IsKeyed [] k peer keyed h = none-some h
lookup-IsKeyed ((j, p) ∷ peers) k peer keyed h = elim (Bool-cases (bytes_eq j k)) [
  | inl same ↦
      let here : lookup ((j, p) ∷ peers) k ≡ some p = rw (same, lookup) refl in
      ap (λ (x : VlinkPeer). x.model.pub_key) (some_inj (sym h ∙ here))
      ∙ keyed.0
      ∙ (bytes_eq_iff j k).0 same
  | inr apart ↦
      let past : lookup ((j, p) ∷ peers) k ≡ lookup peers k = rw (apart, lookup) refl in
      lookup-IsKeyed peers k peer keyed.1 (sym past ∙ h)
]

change-IsKeyed :
    (f : VlinkPeer → VlinkPeer) (k : List ℕ)
    → ((peer : VlinkPeer) → peer.model.pub_key ≡ k → (f peer).model.pub_key ≡ k)
    → (peers : List (List ℕ × VlinkPeer)) → IsKeyed peers
    → IsKeyed (change peers k f)
unfolding change
change-IsKeyed f k fixes [] keyed = tt
change-IsKeyed f k fixes ((j, p) ∷ peers) keyed = elim (Bool-cases (bytes_eq j k)) [
  | inl same ↦
      let e = (bytes_eq_iff j k).0 same in rw (same) (fixes p (keyed.0 ∙ e) ∙ sym e, keyed.1)
  | inr apart ↦ rw (apart) (keyed.0, change-IsKeyed f k fixes peers keyed.1)
]

put-IsKeyed :
    (peers : List (List ℕ × VlinkPeer)) (k : List ℕ) (peer : VlinkPeer)
    → peer.model.pub_key ≡ k
    → IsKeyed peers
    → IsKeyed (put peers k peer)
unfolding put
put-IsKeyed [] k peer mine keyed = (mine, tt)
put-IsKeyed ((j, p) ∷ peers) k peer mine keyed = elim (Bool-cases (bytes_eq j k)) [
  | inl same ↦ rw (same) (mine ∙ sym ((bytes_eq_iff j k).0 same), keyed.1)
  | inr apart ↦ rw (apart) (keyed.0, put-IsKeyed peers k peer mine keyed.1)
]

collect-IsKeyed :
    (peers more : List (List ℕ × VlinkPeer))
    → IsKeyed peers
    → IsKeyed more
    → IsKeyed (collect peers more)
unfolding collect
collect-IsKeyed peers [] keyed more = keyed
collect-IsKeyed peers ((k, p) ∷ rest) keyed more =
    collect-IsKeyed (put peers k p) rest (put-IsKeyed peers k p more.0 keyed) more.1

rows-IsKeyed :
    (models : List PeerModel)
    → IsKeyed (map (λ (p : VlinkPeer). (p.model.pub_key, p)) (map peer_of_model models))
rows-IsKeyed [] = tt
rows-IsKeyed (m ∷ models) = (refl, rows-IsKeyed models)

pub new_peers-IsKeyed : (models : List PeerModel) → IsKeyed (new_peers (map peer_of_model models))
unfolding new_peers
new_peers-IsKeyed models = collect-IsKeyed [] _ tt (rows-IsKeyed models)

-- A network under the identifier that it has, with its peers under their keys.
abbrev pub IsWell : ℕ → VlinkNetwork → Type 0
IsWell id network = (network.network_id ≡ id) × IsKeyed network.peers

module _ (id : ℕ) (network : VlinkNetwork) (well : IsWell id network) where
  pub offline-IsWell : (key : List ℕ) → IsWell id (offline network key).0
  unfolding offline peers_offline
  offline-IsWell key = (well.0, change-IsKeyed _ key (λ p e. e) network.peers well.1)

  module _ (db : Database) (ctx : ClientRequest) where
    enter_for-IsWell :
        (entry : PeerEnter) (o : Option VlinkPeer) → IsWell id (enter_for network ctx entry o).0
    unfolding enter_for
    enter_for-IsWell entry none = well
    enter_for-IsWell entry (some peer) =
        elim (Bool-cases (not (bytes_eq entry.ip (or_empty peer.model.ip)))) [
          | inl e ↦ rw (e) well
          | inr e ↦ rw (e) (well.0, change-IsKeyed _ ctx.pub_key (λ p e. e) network.peers well.1)
        ]

    forward-IsWell :
        (reply : Option (List ℕ)) (target : List ℕ)
        → IsWell id (execute_forward network reply target).0
    unfolding execute_forward
    forward-IsWell none target = well
    forward-IsWell (some reply) target = well

    with_endpoint-key :
        (proto endpoint : List ℕ) (peer : VlinkPeer)
        → (with_endpoint proto endpoint peer).model.pub_key ≡ peer.model.pub_key
    with_endpoint-key proto endpoint peer = elim (Option-cases peer.online_info) [
      | inl e ↦ rw (e) refl
      | inr (info, e) ↦ rw (e) refl
    ]

    endpoint_for-IsWell :
        (proto endpoint : List ℕ) (o : Option VlinkPeer)
        → IsWell id (endpoint_for network ctx proto endpoint o).0
    unfolding endpoint_for
    endpoint_for-IsWell proto endpoint none = well
    endpoint_for-IsWell proto endpoint (some peer) = (
      well.0,
      change-IsKeyed _ ctx.pub_key (λ p e. with_endpoint-key proto endpoint p ∙ e) network.peers
          well.1,
    )

    write_address-IsWell :
        (peer : VlinkPeer) (addr : ℕ) → IsWell id (write_address network peer addr)
    unfolding write_address refresh_model with_address
    write_address-IsWell peer addr =
        (well.0, change-IsKeyed _ peer.model.pub_key (λ p e. refl) network.peers well.1)

    config_for-IsWell : (choice : Choice) → IsWell id (config_for db network ctx choice).0
    unfolding config_for
    config_for-IsWell (fails e) = well
    config_for-IsWell (keeps peer addr) =
        rw (respond_config-network db ctx network network peer addr) well
    config_for-IsWell (chooses peer addr) =
        elim (Bool-cases (not (db.update_ip peer.model.id (show_ip addr)))) [
          | inl e ↦ rw (e) well
          | inr e ↦
              rw
                (
                  e,
                  respond_config-network db ctx network (write_address network peer addr) peer addr,
                )
                (write_address-IsWell peer addr)
        ]

    dispatch-IsWell : (request : ToServerData) → IsWell id (dispatch db network ctx request).0
    unfolding dispatch execute_enter execute_leave execute_endpoint execute_config execute_complete
    dispatch-IsWell (enter_request entry) =
        enter_for-IsWell entry (lookup network.peers ctx.pub_key)
    dispatch-IsWell leave_request = offline-IsWell ctx.pub_key
    dispatch-IsWell (forward_request reply target) = forward-IsWell reply target
    dispatch-IsWell config_request = config_for-IsWell (choose_address db network ctx.pub_key)
    dispatch-IsWell (endpoint_request proto endpoint) =
        endpoint_for-IsWell proto endpoint (lookup network.peers ctx.pub_key)
    dispatch-IsWell (complete_request target proto) = well
    dispatch-IsWell other_request = well

    pub process-IsWell : (request : ToServerData) → IsWell id (process db network ctx request).0
    unfolding process
    process-IsWell request = dispatch-IsWell request
