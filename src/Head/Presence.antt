-- ===== src/Head/Presence.antt =====
-- Who is online: a second client of a key that is connected, and what it does to the first.
use vlink.Prelude.{
  ℕ, ◌==◌, ==_refl, true, false, List, none, some, if◌then◌else◌, ◌≡◌, refl, ap, ◌∙◌,
}
use vlink.Outcome.{Outcome, ok, err}
use vlink.Head.{VlinkPeer, VlinkNetwork, Delivery, is_online, lookup, peers_offline, offline}
use vlink.Head.Maps.{lookup-change_self}
use vlink.Head.Clients.{
  Rows, Server, ServerError, already_connected, put_network, remove_client, get_network,
  find_network, set_client_id, check_offline, go_offline, leave_network, handshake0, disconnect,
}

module _ (rows : Rows) (server : Server) (addr id : ℕ) (key : List ℕ) (net : VlinkNetwork)
    (peer : VlinkPeer) where
  -- The server where the client of an address has a name.
  abbrev named : Server
  named = record server {
    clients = λ a. if a == addr then some (some (key, id)) else server.clients a;
  }

  get_network-cached : (s : Server) → s.networks id ≡ some net → get_network rows s id ≡ (s, ok net)
  unfolding get_network
  get_network-cached s cached = rw (cached, get_network) refl

  check_offline-online :
      lookup net.peers key ≡ some peer
      → is_online peer ≡ true
      → check_offline rows net key ≡ err already_connected
  unfolding check_offline
  check_offline-online known online = rw (known, check_offline, online) refl

  handshake0-online :
      server.clients addr ≡ some none
      → server.networks id ≡ some net
      → rows.peer_network key ≡ some id
      → lookup net.peers key ≡ some peer
      → is_online peer ≡ true
      → handshake0 rows server addr key none ≡ (named, err already_connected)
  unfolding handshake0 find_network set_client_id
  handshake0-online fresh cached registered known online =
      let found : find_network rows server key none ≡ (server, ok id) =
        rw (registered, find_network) refl in
      let set : set_client_id rows server addr (key, id) ≡ (named, ok tt) =
        rw (fresh, set_client_id) refl in
      rw
        (found, handshake0, set, get_network-cached named cached, check_offline-online known online)
        refl

  -- The server that the client's disconnection leaves.
  abbrev gone : Server
  gone = record named { clients = λ a. if a == addr then none else named.clients a }

  disconnect-named :
      server.networks id ≡ some net
      → disconnect rows named addr ≡ (put_network gone id (offline net key).0, (offline net key).1)
  unfolding disconnect remove_client go_offline leave_network
  disconnect-named cached =
      let removed : remove_client named addr ≡ (gone, some (some (key, id))) =
        ap (λ b. (gone, if b then some (some (key, id)) else server.clients addr)) (==_refl addr) in
      rw (removed, disconnect, get_network-cached gone cached) refl

  -- The peer of the key is known to the network and is not online.
  pub record IsOffline (after : Server) : Type 0 where
    pub left : VlinkNetwork
    pub there : after.networks id ≡ some left
    pub gone_peer : VlinkPeer
    pub known : lookup left.peers key ≡ some gone_peer
    pub offline : is_online gone_peer ≡ false

  -- Where a client without an identity, whose connection the server knows, shakes hands without a
  -- token for a registered key whose peer is online in a network that is loaded, it is refused; and
  -- its disconnection then takes the peer of that key offline.
  pub rejected-IsOffline :
      server.clients addr ≡ some none
      → server.networks id ≡ some net
      → rows.peer_network key ≡ some id
      → lookup net.peers key ≡ some peer
      → is_online peer ≡ true
      → ((handshake0 rows server addr key none).1 ≡ err already_connected)
        × IsOffline (disconnect rows (handshake0 rows server addr key none).0 addr).0
  unfolding offline peers_offline is_online
  rejected-IsOffline fresh cached registered known online =
      let refused = handshake0-online fresh cached registered known online in
      let after =
        ap (λ (r : Server × Outcome ServerError (List ℕ × ℕ)). (disconnect rows r.0 addr).0) refused
        ∙ ap (λ (r : Server × List Delivery). r.0) (disconnect-named cached) in
      let left = (offline net key).0 in
      (
        ap (λ (r : Server × Outcome ServerError (List ℕ × ℕ)). r.1) refused,
        record {
          left = left;
          there =
              ap (λ (s : Server). s.networks id) after
              ∙ ap (λ b. if b then some left else gone.networks id) (==_refl id);
          gone_peer = record peer { online_info = none };
          known =
              lookup-change_self (λ p. record p { online_info = none }) net.peers key peer known;
          offline = refl;
        },
      )
