-- ===== src/Daemon/Relaying.antt =====
-- What the first request for a relay does to the endpoint of its peer.
use vlink.Prelude.{
  ℕ, Bool, true, false, List, [], ◌∷◌, none, some, ◌≡◌, refl, ap, ◌∙◌, inl, inr, Bool-cases,
}
use vlink.Bytes.{bytes_eq, bytes_eq_iff}
use vlink.Outcome.{ok}
use vlink.Head.{lookup, put}
use vlink.Head.Requests.{ToServerData, forward_request}
use vlink.Noise.Crypto.{Primitives}
use vlink.Cidr.{Networks}
use vlink.Peer.{Peer, update_endpoint}
use vlink.Peers.{get_by_key, PeerEntry, PeerList}
use vlink.Daemon.{Crates}
use vlink.Daemon.Events.{change_peer}
use vlink.Daemon.Relay.{
  Reachable, Relays, has_server, relay_server, connect_derp_server, require_reply, find_endpoint,
  select_tick,
}

lookup-put :
    (map : List (List ℕ × Bool)) (key : List ℕ) (v : Bool) → lookup (put map key v) key ≡ some v
unfolding lookup put
lookup-put [] key v = rw ((bytes_eq_iff key key).1 refl) refl
lookup-put ((k, w) ∷ map) key v = elim (Bool-cases (bytes_eq k key)) [
  | inl e ↦ rw (e) (rw (e) refl)
  | inr e ↦ rw (e) (rw (e) (lookup-put map key v))
]

module _ {Net Table : Type 0} (n : Networks Net Table) (p : Primitives) (crates : Crates)
    (world : Reachable) where
  connect-new :
      (relays : Relays Net Table) (server target : List ℕ)
      → lookup relays.derp_client_map server ≡ none
      → world.relay server ≡ true
      → connect_derp_server n p crates world relays server target
        ≡ (record relays { derp_client_map = put relays.derp_client_map server true }, ok tt)
  unfolding connect_derp_server
  connect-new relays server target fresh up =
      let none_yet : has_server relays.derp_client_map server ≡ false =
        rw (has_server, fresh) refl in
      rw (connect_derp_server, none_yet, up) refl

  connect-known :
      (relays : Relays Net Table) (server target : List ℕ) (task : Bool)
      → lookup relays.derp_client_map server ≡ some task
      → (connect_derp_server n p crates world relays server target).0.peers
        ≡ change_peer n p crates relays.peers target
            (λ peer. update_endpoint peer (world.relay_endpoint server target))
  unfolding connect_derp_server
  connect-known relays server target task known =
      let there : has_server relays.derp_client_map server ≡ true = rw (has_server, known) refl in
      rw (connect_derp_server, there) refl

  -- The relays behind one request for a server, and behind a second one.
  abbrev pub once : Relays Net Table → List ℕ → List ℕ → Relays Net Table
  once relays server target = (connect_derp_server n p crates world relays server target).0

  -- Where a relay is not connected but can be reached, and the device has the peer of a key: the
  -- first request for the relay succeeds and leaves every peer as it was, without the endpoint over
  -- the relay; only the second one gives the peer that endpoint.
  pub connect_derp_server-late :
      (relays : Relays Net Table) (server target : List ℕ) (entry : PeerEntry Net)
      → lookup relays.derp_client_map server ≡ none
      → world.relay server ≡ true
      → relays.peers.peers target ≡ some entry
      → ((connect_derp_server n p crates world relays server target).1 ≡ ok tt)
        × ((once relays server target).peers ≡ relays.peers)
        × ((once (once relays server target) server target).peers.peers target
            ≡ some (record entry {
              peer = update_endpoint entry.peer (world.relay_endpoint server target);
            }))
  unfolding change_peer
  connect_derp_server-late relays server target entry fresh up known =
      let first = connect-new relays server target fresh up in
      let there : lookup (once relays server target).derp_client_map server ≡ some true =
        ap (λ x. lookup x.0.derp_client_map server) first
        ∙ lookup-put relays.derp_client_map server true in
      let kept : (once relays server target).peers ≡ relays.peers = ap (λ x. x.0.peers) first in
      let set : Peer → Peer = λ peer. update_endpoint peer (world.relay_endpoint server target) in
      let changed : (change_peer n p crates relays.peers target set).peers target
          ≡ some (record entry { peer = set entry.peer }) =
        rw (known, change_peer, (bytes_eq_iff target target).1 refl) refl in
      (
        ap (λ x. x.1) first,
        kept,
        ap (λ (l : PeerList Net Table). l.peers target)
              (connect-known (once relays server target) server target true there
                ∙ ap (λ l. change_peer n p crates l target set) kept)
            ∙ changed,
      )

  -- The request that is forwarded, and the relays behind a turn.
  abbrev pub asked : List ℕ → List ℕ → ToServerData
  asked src key =
      forward_request (some (crates.reply_message src relay_server)) (crates.encode_base64 key)

  select_tick-asks :
      (src key : List ℕ) (relays : Relays Net Table) (entry : PeerEntry Net)
      → relays.peers.peers key ≡ some entry
      → entry.peer.online ≡ true
      → entry.peer.endpoint ≡ none
      → select_tick n p crates world src relays key []
        ≡ ok (once relays relay_server key, asked src key ∷ [])
  unfolding select_tick find_endpoint require_reply get_by_key
  select_tick-asks src key relays entry known online bare =
      rw (known, select_tick, online, bare) refl

  select_tick-rests :
      (src key : List ℕ) (relays : Relays Net Table) (peer : Peer) (e : ℕ) (ips : List Net)
      → relays.peers.peers key ≡ some (record { peer = peer; allowed_ips = ips })
      → peer.online ≡ true
      → peer.endpoint ≡ some e
      → select_tick n p crates world src relays key [] ≡ ok (relays, [])
  unfolding select_tick get_by_key
  select_tick-rests src key relays peer e ips known online there =
      rw (known, select_tick, online, there) refl

  -- Where a peer that is online has no endpoint and no transport, and the relay is not connected but
  -- can be reached: the first turn of its selector asks the peer to reply and leaves every peer as
  -- it was; the second one asks again and gives the peer its endpoint over the relay; and the third
  -- one does nothing.
  pub select_tick-third :
      (src key : List ℕ) (relays : Relays Net Table) (entry : PeerEntry Net)
      → lookup relays.derp_client_map relay_server ≡ none
      → world.relay relay_server ≡ true
      → relays.peers.peers key ≡ some entry
      → entry.peer.online ≡ true
      → entry.peer.endpoint ≡ none
      → (first second : Relays Net Table) × (select_tick n p crates world src relays key []
          ≡ ok (first, asked src key ∷ []))
        × (select_tick n p crates world src first key [] ≡ ok (second, asked src key ∷ []))
        × (select_tick n p crates world src second key [] ≡ ok (second, []))
        × (first.peers ≡ relays.peers)
        × (second.peers.peers key
            ≡ some (record entry {
              peer = update_endpoint entry.peer (world.relay_endpoint relay_server key);
            }))
  unfolding update_endpoint
  select_tick-third src key relays entry fresh up known online bare =
      let (went, kept, given) =
        connect_derp_server-late relays relay_server key entry fresh up known in
      let first = once relays relay_server key in
      let second = once first relay_server key in
      let still : first.peers.peers key ≡ some entry =
        ap (λ (l : PeerList Net Table). l.peers key) kept ∙ known in
      (
        first,
        second,
        select_tick-asks src key relays entry known online bare,
        select_tick-asks src key first entry still online bare,
        select_tick-rests src key second
            (update_endpoint entry.peer (world.relay_endpoint relay_server key))
            (world.relay_endpoint relay_server key) entry.allowed_ips given online refl,
        kept,
        given,
      )
