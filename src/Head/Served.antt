-- ===== src/Head/Served.antt =====
-- Serving a client is a run of the steps of the clients.
use vlink.Prelude.{
  ℕ, ==_refl, List, [], ◌∷◌, Option, none, some, ◌≡◌, refl, sym, ap, ◌∙◌, inl, inr, Bool-cases,
  Option-cases,
}
use vlink.Outcome.{Outcome, ok, err, panic, ok_inj, bind-eq-ok}
use vlink.Head.{VlinkNetwork}
use vlink.Head.Requests.{ClientRequest, ToServerData}
use vlink.Head.Config.{Database}
use vlink.Head.Dispatch.{dispatch, process}
use vlink.Head.Clients.{
  Rows, Server, ServerError, no_network, Step, and_then, put_network, insert_client, get_network,
  find_network, set_client_id, check_offline, handshake0,
}
use vlink.Head.Reach.{Reach, next, connects, shakes, serves, disconnects}
use vlink.Head.Serving.{
  is_panic, serve_requests, serve_network, serve_named, process_client, serve_client,
}

-- A step that returns.
and_then-eq-ok {ℓ κ} :
    {A : Type ℓ} {B : Type κ} (step : Step A) (f : Server → A → Step B) {b : B}
    → (and_then step f).1 ≡ ok b
    → (a : A) × (step.1 ≡ ok a) × (and_then step f ≡ f step.0 a)
and_then-eq-ok (s, ok a) f h = (a, refl, refl)
and_then-eq-ok (s, err e) f h = cc
and_then-eq-ok (s, panic) f h = cc

no_network-ne-ok :
    {net : VlinkNetwork} → ◌≡◌ {A = Outcome ServerError VlinkNetwork} (err no_network) (ok net) → ⊥
no_network-ne-ok h = cc

and_then-clients :
    {c : ℕ → Option (Option (List ℕ × ℕ))} (step : Step VlinkNetwork)
    → step.0.clients ≡ c
    → (and_then step (λ found network. (found, ok network.network_id))).0.clients ≡ c
and_then-clients (t, ok net) h = h
and_then-clients (t, err e) h = h
and_then-clients (t, panic) h = h

module _ (rows : Rows) where
  pub get_network-clients : (s : Server) (id : ℕ) → (get_network rows s id).0.clients ≡ s.clients
  unfolding get_network
  get_network-clients s id = elim (Option-cases (s.networks id)) [
    | inr (net, e) ↦ rw (e, get_network) refl
    | inl e ↦ elim (Option-cases (rows.network_row id)) [
      | inl f ↦ rw (e, get_network, f) refl
      | inr (row, f) ↦ rw (e, get_network, f) refl
    ]
  ]

  pub find_network-clients :
      (s : Server) (key : List ℕ) (token : Option (List ℕ))
      → (find_network rows s key token).0.clients ≡ s.clients
  unfolding find_network
  find_network-clients s key none = elim (Option-cases (rows.peer_network key)) [
    | inl e ↦ rw (e, find_network) refl
    | inr (id, e) ↦ rw (e, find_network) refl
  ]
  find_network-clients s key (some token) = elim (Option-cases (rows.token_network token)) [
    | inl e ↦ rw (e, find_network) refl
    | inr ((disabled, id), e) ↦ elim (Bool-cases disabled) [
      | inl d ↦ rw (e, find_network, d) refl
      | inr d ↦
          rw (e, find_network, d)
            (and_then-clients (get_network rows s id) (get_network-clients s id))
    ]
  ]

  set_client_id-named :
      (s : Server) (addr : ℕ) (name : List ℕ × ℕ)
      → s.clients addr ≡ some none
      → (set_client_id rows s addr name).0.clients addr ≡ some (some name)
  unfolding set_client_id
  set_client_id-named s addr name h = rw (h, set_client_id, ==_refl addr) refl

  get_network-there :
      (s : Server) (id : ℕ) (net : VlinkNetwork)
      → (get_network rows s id).1 ≡ ok net
      → (get_network rows s id).0.networks id ≡ some net
  unfolding get_network
  get_network-there s id net h = elim (Option-cases (s.networks id)) [
    | inr (cached, e) ↦
        rw (e, get_network) (e ∙ ap some (ok_inj (sym (rw (e, get_network) refl) ∙ h)))
    | inl e ↦ elim (Option-cases (rows.network_row id)) [
      | inl f ↦ absurd (no_network-ne-ok (sym (rw (e, get_network, f) refl) ∙ h))
      | inr (row, f) ↦
          rw (e, get_network, f, ==_refl id)
            (ap some (ok_inj (sym (rw (e, get_network, f) refl) ∙ h)))
    ]
  ]

  pub get_network-known :
      (s : Server) (id : ℕ) (net : VlinkNetwork)
      → s.networks id ≡ some net
      → get_network rows s id ≡ (s, ok net)
  unfolding get_network
  get_network-known s id net h = rw (h, get_network) refl

  -- A client that has shaken hands, in a network that is loaded.
  abbrev IsNamed : Server → ℕ → List ℕ × ℕ → Type 0
  IsNamed s addr name =
      (s.clients addr ≡ some (some name)) × (net : VlinkNetwork) × (s.networks name.1 ≡ some net)

  pub handshake0-IsNamed :
      (s : Server) (addr : ℕ) (key : List ℕ) (token : Option (List ℕ)) (name : List ℕ × ℕ)
      → s.clients addr ≡ some none
      → (handshake0 rows s addr key token).1 ≡ ok name
      → IsNamed (handshake0 rows s addr key token).0 addr name
  unfolding handshake0
  handshake0-IsNamed s addr key token name fresh h =
      let (id, found_id, one) = and_then-eq-ok (find_network rows s key token) _ h in
      let found = (find_network rows s key token).0 in
      let (u, set, two) =
        and_then-eq-ok (set_client_id rows found addr (key, id)) _ (sym (ap (λ x. x.1) one) ∙ h) in
      let named = (set_client_id rows found addr (key, id)).0 in
      let (net, cached, three) =
        and_then-eq-ok (get_network rows named id) _ (sym (ap (λ x. x.1) (one ∙ two)) ∙ h) in
      let whole = one ∙ two ∙ three in
      let (v, offline, made) =
        bind-eq-ok (check_offline rows net key) _ (sym (ap (λ x. x.1) whole) ∙ h) in
      let same : (key, id) ≡ name = ok_inj made in
      let waits = ap (λ c. c addr) (find_network-clients s key token) ∙ fresh in
      let clients = set_client_id-named found addr (key, id) waits in
      let kept = ap (λ c. c addr) (get_network-clients named id) ∙ clients in
      let there = get_network-there named id net cached in
      (
        ap (λ x. x.0.clients addr) whole ∙ kept ∙ ap (λ m. some (some m)) same,
        net,
        ap (λ x. x.0.networks name.1) whole
            ∙ ap (λ (m : List ℕ × ℕ). (get_network rows named id).0.networks m.1) (sym same)
            ∙ there,
      )

  module _ (db : Database) where
    serve_requests-Reach :
        (messages : List (ℕ × Option ToServerData)) (s : Server) (addr : ℕ) (name : List ℕ × ℕ)
        → Reach rows db s
        → s.clients addr ≡ some (some name)
        → Reach rows db (serve_requests db s addr name messages).0
    unfolding serve_requests
    serve_requests-Reach [] s addr name reached named = reached
    serve_requests-Reach ((n, none) ∷ messages) s addr name reached named =
        serve_requests-Reach messages s addr name reached named
    serve_requests-Reach ((n, some request) ∷ messages) s addr name reached named =
        elim (Option-cases (s.networks name.1)) [
          | inl e ↦ rw (e, serve_requests) reached
          | inr (net, e) ↦
              let ctx : ClientRequest = record { id = n; pub_key = name.0; connect = addr } in
              let after = put_network s name.1 (process db net ctx request).0 in
              let stepped : Reach rows db after =
                next reached (serves s addr name.1 net ctx request named e) in
              elim (Bool-cases (is_panic (dispatch db net ctx request).1)) [
                | inl p ↦ rw (e, serve_requests, p) stepped
                | inr p ↦
                    rw (e, serve_requests, p)
                      (serve_requests-Reach messages after addr name stepped named)
              ]
        ]

    serve_network-Reach :
        (messages : List (ℕ × Option ToServerData)) (s : Server) (addr : ℕ) (name : List ℕ × ℕ)
        → Reach rows db s
        → IsNamed s addr name
        → Reach rows db (serve_network db addr name messages (get_network rows s name.1)).0
    unfolding serve_network
    serve_network-Reach messages s addr name reached (named, net, there) =
        rw (get_network-known s name.1 net there)
          (serve_requests-Reach messages s addr name reached named)

    serve_named-Reach :
        (messages : List (ℕ × Option ToServerData)) (step : Step (List ℕ × ℕ)) (addr : ℕ)
        → Reach rows db step.0
        → ((name : List ℕ × ℕ) → step.1 ≡ ok name → IsNamed step.0 addr name)
        → Reach rows db (serve_named rows db addr messages step).0
    unfolding serve_named
    serve_named-Reach messages (s, ok name) addr reached named =
        serve_network-Reach messages s addr name reached (named name refl)
    serve_named-Reach messages (s, err e) addr reached named = reached
    serve_named-Reach messages (s, panic) addr reached named = reached

    process_client-Reach :
        (s : Server) (addr : ℕ) (first : Option (ℕ × List ℕ × Option (List ℕ)))
        (messages : List (ℕ × Option ToServerData))
        → Reach rows db s
        → s.clients addr ≡ some none
        → Reach rows db (process_client rows db s addr first messages).0
    unfolding process_client
    process_client-Reach s addr none messages reached fresh = reached
    process_client-Reach s addr (some (n, key, token)) messages reached fresh =
        serve_named-Reach messages (handshake0 rows s addr key token) addr
          (next reached (shakes s addr key token))
          (λ name h. handshake0-IsNamed s addr key token name fresh h)

    -- The task for one more connection leaves a server that is reached again.
    pub serve_client-Reach :
        (s : Server) (addr : ℕ) (first : Option (ℕ × List ℕ × Option (List ℕ)))
        (messages : List (ℕ × Option ToServerData))
        → Reach rows db s
        → Reach rows db (serve_client rows db s addr first messages).0
    unfolding serve_client insert_client
    serve_client-Reach s addr first messages reached =
        let done = process_client rows db (insert_client s addr) addr first messages in
        let served : Reach rows db done.0 =
          process_client-Reach (insert_client s addr) addr first messages
            (next reached (connects s addr)) (rw (==_refl addr) refl) in
        elim (Bool-cases done.2) [
          | inl e ↦ rw (e, serve_client) (next served (disconnects done.0 addr))
          | inr e ↦ rw (e, serve_client) served
        ]
