-- ===== src/Head/Isolation.antt =====
-- A request of a client changes no other peer of its network.
use vlink.Prelude.{
  ℕ, not, List, Option, none, some, ◌≡◌, ◌≢◌, refl, ap, ◌∙◌, inl, inr, Bool-cases, Option-cases,
  arith,
}
use vlink.Bytes.{bytes_eq}
use vlink.Head.{VlinkPeer, VlinkNetwork, lookup, peers_offline, offline}
use vlink.Head.Address.{show_ip}
use vlink.Head.Maps.{lookup-change_other}
use vlink.Head.Race.{write_address-other}
use vlink.Head.Requests.{
  ClientRequest, PeerEnter, ToServerData, enter_request, leave_request, forward_request,
  config_request, endpoint_request, complete_request, other_request, execute_enter, execute_leave,
  execute_forward, execute_complete, execute_endpoint, or_empty, enter_for, endpoint_for,
  with_endpoint,
}
use vlink.Head.Config.{
  Database, Choice, fails, keeps, chooses, choose_for, choose_address, write_address,
  respond_config, execute_config, config_for,
}
use vlink.Head.Dispatch.{dispatch, process}

module _ (db : Database) (ctx : ClientRequest) where
  pub respond_config-network :
      (before after : VlinkNetwork) (peer : VlinkPeer) (addr : ℕ)
      → (respond_config db before after ctx peer addr).0 ≡ after
  unfolding respond_config
  respond_config-network before after peer addr =
      elim (Option-cases (db.transports peer.model.id)) [
        | inl e ↦ rw (e, respond_config) refl
        | inr (t, e) ↦ rw (e, respond_config) refl
      ]

  pub chooses-known :
      (network : VlinkNetwork) (peer : VlinkPeer) (addr : ℕ)
      → choose_address db network ctx.pub_key ≡ chooses peer addr
      → lookup network.peers ctx.pub_key ≡ some peer
  unfolding choose_address choose_for
  chooses-known network peer addr h = ground arith

module _ (db : Database) (network : VlinkNetwork) (ctx : ClientRequest) (l : List ℕ)
    (apart : l ≢ ctx.pub_key) where
  abbrev Kept : VlinkNetwork → Type 0
  Kept after = lookup after.peers l ≡ lookup network.peers l

  enter_for-Kept :
      (entry : PeerEnter) (o : Option VlinkPeer) → Kept (enter_for network ctx entry o).0
  unfolding enter_for
  enter_for-Kept entry none = refl
  enter_for-Kept entry (some peer) =
      elim (Bool-cases (not (bytes_eq entry.ip (or_empty peer.model.ip)))) [
        | inl e ↦ rw (e) refl
        | inr e ↦ rw (e) (lookup-change_other _ network.peers ctx.pub_key l apart)
      ]

  execute_leave-Kept : Kept (execute_leave network ctx).0
  unfolding execute_leave offline peers_offline
  execute_leave-Kept = lookup-change_other _ network.peers ctx.pub_key l apart

  execute_forward-Kept :
      (reply : Option (List ℕ)) (target : List ℕ) → Kept (execute_forward network reply target).0
  unfolding execute_forward
  execute_forward-Kept none target = refl
  execute_forward-Kept (some reply) target = refl

  endpoint_for-Kept :
      (proto endpoint : List ℕ) (o : Option VlinkPeer)
      → Kept (endpoint_for network ctx proto endpoint o).0
  unfolding endpoint_for
  endpoint_for-Kept proto endpoint none = refl
  endpoint_for-Kept proto endpoint (some peer) =
      lookup-change_other (with_endpoint proto endpoint) network.peers ctx.pub_key l apart

  module _
      (keyed : (peer : VlinkPeer)
        → lookup network.peers ctx.pub_key ≡ some peer
        → peer.model.pub_key ≡ ctx.pub_key) where
    config_for-Kept :
        (choice : Choice)
        → choose_address db network ctx.pub_key ≡ choice
        → Kept (config_for db network ctx choice).0
    unfolding config_for
    config_for-Kept (fails e) chosen = refl
    config_for-Kept (keeps peer addr) chosen =
        ap (λ (net : VlinkNetwork). lookup net.peers l)
          (respond_config-network db ctx network network peer addr)
    config_for-Kept (chooses peer addr) chosen =
        elim (Bool-cases (not (db.update_ip peer.model.id (show_ip addr)))) [
          | inl e ↦ rw (e) refl
          | inr e ↦
              let written =
                write_address-other db network network ctx.pub_key l peer addr
                  (keyed peer (chooses-known db ctx network peer addr chosen)) apart in
              let after = write_address network peer addr in
              rw (e) (
                ap (λ (net : VlinkNetwork). lookup net.peers l)
                  (respond_config-network db ctx network after peer addr)
                ∙ written)
        ]

    dispatch-Kept : (request : ToServerData) → Kept (dispatch db network ctx request).0
    unfolding dispatch execute_enter execute_endpoint execute_config execute_complete
    dispatch-Kept (enter_request entry) = enter_for-Kept entry (lookup network.peers ctx.pub_key)
    dispatch-Kept leave_request = execute_leave-Kept
    dispatch-Kept (forward_request reply target) = execute_forward-Kept reply target
    dispatch-Kept config_request = config_for-Kept (choose_address db network ctx.pub_key) refl
    dispatch-Kept (endpoint_request proto endpoint) =
        endpoint_for-Kept proto endpoint (lookup network.peers ctx.pub_key)
    dispatch-Kept (complete_request target proto) = refl
    dispatch-Kept other_request = refl

    -- Whatever request of a client the head server processes and whatever becomes of it: where the
    -- peer that the network has for the client's key, if any, carries that key in its row, every
    -- other key has the peer that it had before.
    pub process-Kept :
        (request : ToServerData)
        → lookup (process db network ctx request).0.peers l ≡ lookup network.peers l
    unfolding process
    process-Kept request = dispatch-Kept request
