-- ===== src/Head/Race.antt =====
-- Two requests for a configuration: what they choose when they do not wait for each other.
use vlink.Prelude.{ℕ, List, none, some, ◌≡◌, ◌≢◌, refl, sym, ap, ◌∙◌}
use vlink.Head.{VlinkPeer, VlinkNetwork, lookup, change, refresh_model}
use vlink.Head.Address.{show_ip, generate_ip}
use vlink.Head.Maps.{lookup-change_self, lookup-change_other}
use vlink.Head.Config.{Database, chooses, choose_for, choose_address, with_address, write_address}

-- The peer of a key holds an address.
abbrev pub Holds : VlinkNetwork → List ℕ → List ℕ → Type 0
Holds network key ip =
    (peer : VlinkPeer) × (lookup network.peers key ≡ some peer) × (peer.model.ip ≡ some ip)

module _ (db : Database) (network : VlinkNetwork) where
  -- A choice depends on the network alone.
  choose_address-eq :
      (key : List ℕ) (peer : VlinkPeer) (addr : ℕ)
      → lookup network.peers key ≡ some peer
      → peer.model.ip ≡ none
      → generate_ip (db.addresses network.cidr) network.peers ≡ some addr
      → choose_address db network key ≡ chooses peer addr
  unfolding choose_address choose_for
  choose_address-eq key peer addr known bare free =
      let found : choose_address db network key ≡ choose_for db network peer peer.model.ip =
        rw (known, choose_address) refl in
      found ∙ ap (choose_for db network peer) bare ∙ rw (free, choose_for) refl

  -- A peer whose row has its key holds the address that is written for it.
  write_address-Holds :
      (net : VlinkNetwork) (key : List ℕ) (peer now_there : VlinkPeer) (addr : ℕ)
      → peer.model.pub_key ≡ key
      → lookup net.peers key ≡ some now_there
      → Holds (write_address net peer addr) key (show_ip addr)
  unfolding write_address refresh_model with_address
  write_address-Holds net key peer now_there addr keyed known =
      let model = with_address peer addr in
      (
        record now_there { model = model },
        ap (λ k. lookup (change net.peers k (λ p. record p { model = model })) key) keyed
            ∙ lookup-change_self (λ p. record p { model = model }) net.peers key now_there known,
        refl,
      )

  pub write_address-other :
      (net : VlinkNetwork) (key l : List ℕ) (peer : VlinkPeer) (addr : ℕ)
      → peer.model.pub_key ≡ key
      → l ≢ key
      → lookup (write_address net peer addr).peers l ≡ lookup net.peers l
  unfolding write_address refresh_model with_address
  write_address-other net key l peer addr keyed apart =
      let model = with_address peer addr in
      ap (λ k. lookup (change net.peers k (λ p. record p { model = model })) l) keyed
      ∙ lookup-change_other (λ p. record p { model = model }) net.peers key l apart

  -- Where two different keys, each in its own row, have peers without an address, and the network
  -- has a free one: both choose that address as long as neither has written it, and once both have
  -- written, both hold it.
  pub chosen-Holds :
      (k l : List ℕ) (alpha beta : VlinkPeer) (addr : ℕ)
      → k ≢ l
      → lookup network.peers k ≡ some alpha
      → lookup network.peers l ≡ some beta
      → alpha.model.pub_key ≡ k
      → beta.model.pub_key ≡ l
      → alpha.model.ip ≡ none
      → beta.model.ip ≡ none
      → generate_ip (db.addresses network.cidr) network.peers ≡ some addr
      → (choose_address db network k ≡ chooses alpha addr)
        × (choose_address db network l ≡ chooses beta addr)
        × Holds (write_address (write_address network alpha addr) beta addr) k (show_ip addr)
        × Holds (write_address (write_address network alpha addr) beta addr) l (show_ip addr)
  chosen-Holds k l alpha beta addr apart known_a known_b key_a key_b bare_a bare_b free =
      let once = write_address network alpha addr in
      let (held, there, has) = write_address-Holds network k alpha alpha addr key_a known_a in
      let still = write_address-other network k l alpha addr key_a (λ e. apart (sym e)) in
      (
        choose_address-eq k alpha addr known_a bare_a free,
        choose_address-eq l beta addr known_b bare_b free,
        (held, write_address-other once l k beta addr key_b apart ∙ there, has),
        write_address-Holds once l beta beta addr key_b (still ∙ known_b),
      )
