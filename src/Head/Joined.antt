-- ===== src/Head/Joined.antt =====
-- How a device gets an address and enters with it: the head server's side.
use vlink.Prelude.{
  ℕ, true, not, List, [], ◌∷◌, Option, none, some, ◌≡◌, refl, sym, ap, ◌∙◌, inl, inr, Bool-cases,
  Option-cases,
}
use vlink.Bytes.{bytes_eq, bytes_eq_iff}
use vlink.Outcome.{Outcome, ok, err, ok_inj}
use vlink.Head.{
  RespConfig, VlinkPeer, OnlineInfo, VlinkNetwork, Delivery, peer_enter, resp_config, is_online,
  lookup, change, collect, refresh_model, broadcast,
}
use vlink.Head.Address.{show_ip, parse_ip, generate_ip}
use vlink.Head.Text.{show_ip-parse_ip}
use vlink.Head.Maps.{lookup-change_self}
use vlink.Head.Isolation.{chooses-known}
use vlink.Head.Keyed.{IsKeyed, lookup-IsKeyed}
use vlink.Head.Requests.{
  ExecuteError, db_error, parse_error, anyhow_error, peer_not_found, ClientRequest, PeerEnter,
  execute_enter, enter_for, entered, or_empty,
}
use vlink.Head.Config.{
  Database, Choice, fails, keeps, chooses, choose_for, choose_address, with_address, write_address,
  respond_config, config_for, execute_config, or_zero, listed, peer_transports,
}

-- The peer of a key holds an address.
pub record HasAddress (net : VlinkNetwork) (key ip : List ℕ) : Type 0 where
  pub peer : VlinkPeer
  pub known : lookup net.peers key ≡ some peer
  pub held : peer.model.ip ≡ some ip

-- A peer that is online and holds an address.
pub record IsJoined (net : VlinkNetwork) (key ip : List ℕ) : Type 0 where
  pub peer : VlinkPeer
  pub known : lookup net.peers key ≡ some peer
  pub held : peer.model.ip ≡ some ip
  pub online : is_online peer ≡ true

pair_inj : {A B : Type 0} {a c : A} {b d : B} → ◌≡◌ {A = A × B} (a, b) (c, d) → (a ≡ c) × (b ≡ d)
pair_inj e = (ap (λ x. x.0) e, ap (λ x. x.1) e)

err-ne-ok :
    {A : Type 0} {x : ExecuteError} {a : A} → ◌≡◌ {A = Outcome ExecuteError A} (err x) (ok a) → ⊥
err-ne-ok h = cc

fails-ne-keeps : {x : ExecuteError} {peer : VlinkPeer} {addr : ℕ} → fails x ≡ keeps peer addr → ⊥
fails-ne-keeps h = cc

chooses-ne-keeps : {p q : VlinkPeer} {a b : ℕ} → chooses p a ≡ keeps q b → ⊥
chooses-ne-keeps h = cc

keeps_inj : {p q : VlinkPeer} {a b : ℕ} → keeps p a ≡ keeps q b → a ≡ b
keeps_inj h = cc

module _ (db : Database) (net : VlinkNetwork) (ctx : ClientRequest) where
  -- A configuration that was sent, and the address of its peer behind it.
  pub record IsConfigured (after : VlinkNetwork) (sent : List Delivery) : Type 0 where
    pub resp : RespConfig
    pub body :
        sent ≡ record { connect = ctx.connect; id = some ctx.id; body = resp_config resp } ∷ []
    pub address : HasAddress after ctx.pub_key (show_ip resp.address)

  abbrev the_resp :
      VlinkNetwork → VlinkNetwork → VlinkPeer → ℕ → List (List ℕ × List ℕ) → RespConfig
  the_resp before after peer addr transports = record {
    network_id = after.network_id;
    address = addr;
    mask = after.cidr.1;
    network = after.cidr.0;
    port = or_zero peer.model.port;
    peers = listed before.peers;
    extra_transports = transports;
    peer_extra_transports = peer_transports db after.peers;
  }

  respond_config-IsConfigured :
      (before after final : VlinkNetwork) (peer : VlinkPeer) (addr : ℕ) (sent : List Delivery)
      → HasAddress after ctx.pub_key (show_ip addr)
      → respond_config db before after ctx peer addr ≡ (final, ok sent)
      → IsConfigured final sent
  unfolding respond_config
  respond_config-IsConfigured before after final peer addr sent has h =
      elim (Option-cases (db.transports peer.model.id)) [
        | inl e ↦
            let failed : respond_config db before after ctx peer addr ≡ (after, err db_error) =
              rw (respond_config, e) refl in
            absurd (err-ne-ok (pair_inj (sym failed ∙ h)).1)
        | inr (transports, e) ↦
            let made : respond_config db before after ctx peer addr ≡ (
              after,
              ok (
                  record {
                    connect = ctx.connect;
                    id = some ctx.id;
                    body = resp_config (the_resp before after peer addr transports);
                  }
                  ∷ []),
            ) =
              rw (respond_config, e) refl in
            let same = pair_inj (sym made ∙ h) in
            record {
              resp = the_resp before after peer addr transports;
              body = sym (ok_inj same.1);
              address = rw (sym same.0) has;
            }
      ]

  choose_for-keeps :
      (known peer : VlinkPeer) (ip : Option (List ℕ)) (addr : ℕ)
      → choose_for db net known ip ≡ keeps peer addr
      → (text : List ℕ) × (ip ≡ some text) × (parse_ip text ≡ some addr)
  unfolding choose_for
  choose_for-keeps known peer none addr h =
      elim (Option-cases (generate_ip (db.addresses net.cidr) net.peers)) [
        | inl e ↦ absurd (fails-ne-keeps {x = anyhow_error} (sym (rw (choose_for, e) refl) ∙ h))
        | inr (a, e) ↦
            absurd (chooses-ne-keeps {p = known} {a = a} (sym (rw (choose_for, e) refl) ∙ h))
      ]
  choose_for-keeps known peer (some text) addr h = elim (Option-cases (parse_ip text)) [
    | inl e ↦ absurd (fails-ne-keeps {x = parse_error} (sym (rw (choose_for, e) refl) ∙ h))
    | inr (a, e) ↦
        let got : choose_for db net known (some text) ≡ keeps known a = rw (choose_for, e) refl in
        (text, refl, e ∙ ap some (keeps_inj (sym got ∙ h)))
  ]

  keeps-HasAddress :
      (peer : VlinkPeer) (addr : ℕ)
      → choose_address db net ctx.pub_key ≡ keeps peer addr
      → HasAddress net ctx.pub_key (show_ip addr)
  unfolding choose_address
  keeps-HasAddress peer addr h = elim (Option-cases (lookup net.peers ctx.pub_key)) [
    | inl e ↦ absurd (fails-ne-keeps {x = peer_not_found} (sym (rw (choose_address, e) refl) ∙ h))
    | inr (known, e) ↦
        let went : choose_address db net ctx.pub_key ≡ choose_for db net known known.model.ip =
          rw (choose_address, e) refl in
        let (text, f, read) = choose_for-keeps known peer known.model.ip addr (sym went ∙ h) in
        record {
          peer = known;
          known = e;
          held = f ∙ ap some (sym (show_ip-parse_ip text addr read).0);
        }
  ]

  write_address-HasAddress :
      (peer : VlinkPeer) (addr : ℕ)
      → IsKeyed net.peers
      → lookup net.peers ctx.pub_key ≡ some peer
      → HasAddress (write_address net peer addr) ctx.pub_key (show_ip addr)
  unfolding write_address refresh_model with_address
  write_address-HasAddress peer addr keyed known =
      let mine = lookup-IsKeyed net.peers ctx.pub_key peer keyed known in
      let model = with_address peer addr in
      let set : VlinkPeer → VlinkPeer = λ p. record p { model = model } in
      record {
        peer = set peer;
        known =
            ap (λ k. lookup (change net.peers k set) ctx.pub_key) mine
            ∙ lookup-change_self set net.peers ctx.pub_key peer known;
        held = refl;
      }

  config_for-IsConfigured :
      (choice : Choice) (final : VlinkNetwork) (sent : List Delivery)
      → IsKeyed net.peers
      → choose_address db net ctx.pub_key ≡ choice
      → config_for db net ctx choice ≡ (final, ok sent)
      → IsConfigured final sent
  unfolding config_for
  config_for-IsConfigured (fails e) final sent keyed chosen h = absurd (err-ne-ok (pair_inj h).1)
  config_for-IsConfigured (keeps peer addr) final sent keyed chosen h =
      respond_config-IsConfigured net net final peer addr sent (keeps-HasAddress peer addr chosen) h
  config_for-IsConfigured (chooses peer addr) final sent keyed chosen h =
      elim (Bool-cases (not (db.update_ip peer.model.id (show_ip addr)))) [
        | inl e ↦
            let failed : config_for db net ctx (chooses peer addr) ≡ (net, err db_error) =
              rw (config_for, e) refl in
            absurd (err-ne-ok (pair_inj (sym failed ∙ h)).1)
        | inr e ↦
            let went : config_for db net ctx (chooses peer addr)
                ≡ respond_config db net (write_address net peer addr) ctx peer addr =
              rw (config_for, e) refl in
            respond_config-IsConfigured net (write_address net peer addr) final peer addr sent
              (write_address-HasAddress peer addr keyed (chooses-known db ctx net peer addr chosen))
              (sym went ∙ h)
      ]

  pub execute_config-IsConfigured :
      (final : VlinkNetwork) (sent : List Delivery)
      → IsKeyed net.peers
      → execute_config db net ctx ≡ (final, ok sent)
      → IsConfigured final sent
  unfolding execute_config
  execute_config-IsConfigured final sent keyed h =
      config_for-IsConfigured (choose_address db net ctx.pub_key) final sent keyed refl h

-- A message with which a peer that holds an address enters, with that address.
pub execute_enter-IsJoined :
    (net : VlinkNetwork) (ctx : ClientRequest) (entry : PeerEnter)
    → HasAddress net ctx.pub_key entry.ip
    → (sent : List Delivery) × ((execute_enter net ctx entry).1 ≡ ok sent)
      × IsJoined (execute_enter net ctx entry).0 ctx.pub_key entry.ip
unfolding execute_enter enter_for is_online
execute_enter-IsJoined net ctx entry has =
    let same : bytes_eq entry.ip (or_empty has.peer.model.ip) ≡ true =
      ap (λ ip. bytes_eq entry.ip (or_empty ip)) has.held
      ∙ (bytes_eq_iff entry.ip entry.ip).1 refl in
    let info : OnlineInfo = record {
      connect = ctx.connect;
      port = entry.port;
      endpoint_addr = entry.endpoint_addr;
      extra_endpoints = collect [] entry.extra_endpoints;
    } in
    let set : VlinkPeer → VlinkPeer = λ p. record p { online_info = some info } in
    let body = peer_enter (record {
      pub_key = ctx.pub_key;
      ip = entry.ip;
      endpoint_addr = entry.endpoint_addr;
      port = entry.port;
      online = true;
    }) in
    let went : execute_enter net ctx entry
        ≡ (entered net ctx entry, ok (broadcast (entered net ctx entry) body ctx.pub_key)) =
      rw (execute_enter, has.known, enter_for, same) refl in
    rw (went) (
      broadcast (entered net ctx entry) body ctx.pub_key,
      refl,
      record {
        peer = set has.peer;
        known = lookup-change_self set net.peers ctx.pub_key has.peer has.known;
        held = has.held;
        online = refl;
      },
    )
