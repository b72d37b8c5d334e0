-- ===== src/Head/Reach.antt =====
-- The head server as its clients drive it: the steps of main.rs and `process_client`, and what holds in
-- every server that they reach.
use vlink.Prelude.{
  ℕ, ◌==◌, ==_iff, List, Option, none, none-some, some, some_inj, ◌≡◌, ◌≢◌, refl, sym, ap, ◌∙◌, inl,
  inr, Bool-cases, Option-cases, if◌then◌else◌,
}
use vlink.Outcome.{Outcome, ok, err, panic, ◌>>=◌}
use vlink.Head.{VlinkPeer, VlinkNetwork, lookup}
use vlink.Head.Requests.{ClientRequest, ToServerData}
use vlink.Head.Config.{Database}
use vlink.Head.Dispatch.{process}
use vlink.Head.Clients.{
  Rows, Server, Step, and_then, new_server, put_network, insert_client, remove_client, get_network,
  find_network, set_client_id, check_offline, ServerError, handshake0, leave_network, go_offline,
  disconnect,
}
use vlink.Head.Isolation.{process-Kept}
use vlink.Head.Keyed.{IsWell, lookup-IsKeyed, new_peers-IsKeyed, offline-IsWell, process-IsWell}

-- A step of a client: it connects, shakes hands, sends a request in the network that it has named, or
-- disconnects. A client that the server has refused sends nothing before it disconnects, and the relation,
-- which tells it by its name only, lets it.
pub data Move (rows : Rows) (db : Database) : Server → Server → Type 0 where
  connects : (s : Server) (addr : ℕ) → Move rows db s (insert_client s addr)
  shakes :
      (s : Server) (addr : ℕ) (key : List ℕ) (token : Option (List ℕ))
      → Move rows db s (handshake0 rows s addr key token).0
  serves :
      (s : Server) (addr id : ℕ) (net : VlinkNetwork) (ctx : ClientRequest) (request : ToServerData)
      → s.clients addr ≡ some (some (ctx.pub_key, id))
      → s.networks id ≡ some net
      → Move rows db s (put_network s id (process db net ctx request).0)
  disconnects : (s : Server) (addr : ℕ) → Move rows db s (disconnect rows s addr).0

pub data Reach (rows : Rows) (db : Database) : Server → Type 0 where
  start : Reach rows db new_server
  next : {s t : Server} → Reach rows db s → Move rows db s t → Reach rows db t

abbrev pub IsSound : Server → Type 0
IsSound s = (id : ℕ) (net : VlinkNetwork) → s.networks id ≡ some net → IsWell id net

put_network-IsSound :
    (s : Server) (id : ℕ) (net : VlinkNetwork)
    → IsSound s
    → IsWell id net
    → IsSound (put_network s id net)
put_network-IsSound s id net sound well i found h = elim (Bool-cases (i == id)) [
  | inl same ↦
      let e : i ≡ id = (==_iff i id).0 same in
      let f : net ≡ found =
        some_inj (sym (ap (λ b. if b then some net else s.networks i) same) ∙ h) in
      rw (e, sym f) well
  | inr apart ↦ sound i found (sym (ap (λ b. if b then some net else s.networks i) apart) ∙ h)
]

-- A network that a step gives, if it gives one.
abbrev IsGiven : ℕ → Outcome ServerError VlinkNetwork → Type 0
IsGiven id (ok net) = IsWell id net
IsGiven id (err e) = Unit {0}
IsGiven id panic = Unit {0}

and_then-IsSound {ℓ κ} :
    {A : Type ℓ} {B : Type κ} (step : Step A) (f : Server → A → Step B)
    → IsSound step.0
    → ((s : Server) (a : A) → IsSound s → IsSound (f s a).0)
    → IsSound (and_then step f).0
and_then-IsSound (s, ok a) f sound go = go s a sound
and_then-IsSound (s, err e) f sound go = sound
and_then-IsSound (s, panic) f sound go = sound

module _ (rows : Rows) where
  get_network-IsSound : (s : Server) (id : ℕ) → IsSound s → IsSound (get_network rows s id).0
  unfolding get_network
  get_network-IsSound s id sound = elim (Option-cases (s.networks id)) [
    | inr (net, e) ↦ rw (e, get_network) sound
    | inl e ↦ elim (Option-cases (rows.network_row id)) [
      | inl f ↦ rw (e, get_network, f) sound
      | inr (row, f) ↦
          rw (e, get_network, f) (put_network-IsSound s id _ sound (refl, new_peers-IsKeyed row.1))
    ]
  ]

  get_network-IsGiven : (s : Server) (id : ℕ) → IsSound s → IsGiven id (get_network rows s id).1
  unfolding get_network
  get_network-IsGiven s id sound = elim (Option-cases (s.networks id)) [
    | inr (net, e) ↦ rw (e, get_network) (sound id net e)
    | inl e ↦ elim (Option-cases (rows.network_row id)) [
      | inl f ↦ rw (e, get_network, f) tt
      | inr (row, f) ↦ rw (e, get_network, f) (refl, new_peers-IsKeyed row.1)
    ]
  ]

  find_network-IsSound :
      (s : Server) (key : List ℕ) (token : Option (List ℕ))
      → IsSound s
      → IsSound (find_network rows s key token).0
  unfolding find_network
  find_network-IsSound s key (some token) sound = elim (Option-cases (rows.token_network token)) [
    | inl e ↦ rw (e, find_network) sound
    | inr ((disabled, id), e) ↦ elim (Bool-cases disabled) [
      | inl d ↦ rw (e, find_network, d) sound
      | inr d ↦
          rw (e, find_network, d)
            (and_then-IsSound (get_network rows s id) _ (get_network-IsSound s id sound)
              (λ t a h. h))
    ]
  ]
  find_network-IsSound s key none sound = elim (Option-cases (rows.peer_network key)) [
    | inl e ↦ rw (e, find_network) sound
    | inr (id, e) ↦ rw (e, find_network) sound
  ]

  set_client_id-networks :
      (s : Server) (addr : ℕ) (name : List ℕ × ℕ)
      → (set_client_id rows s addr name).0.networks ≡ s.networks
  unfolding set_client_id
  set_client_id-networks s addr name = elim (Option-cases (s.clients addr)) [
    | inl e ↦ rw (e, set_client_id) refl
    | inr (none, e) ↦ rw (e, set_client_id) refl
    | inr (some old, e) ↦ rw (e, set_client_id) refl
  ]

  handshake0-IsSound :
      (s : Server) (addr : ℕ) (key : List ℕ) (token : Option (List ℕ))
      → IsSound s
      → IsSound (handshake0 rows s addr key token).0
  unfolding handshake0
  handshake0-IsSound s addr key token sound =
      let last : List ℕ → ℕ → Server → VlinkNetwork → Step (List ℕ × ℕ) =
        λ key id cached network. (cached, check_offline rows network key >>= λ v. ok (key, id)) in
      and_then-IsSound (find_network rows s key token) _ (find_network-IsSound s key token sound)
        (λ found id h.
          and_then-IsSound (set_client_id rows found addr (key, id))
            (λ named u. and_then (get_network rows named id) (last key id))
            (rw (set_client_id-networks found addr (key, id)) h)
            (λ named u g.
              and_then-IsSound (get_network rows named id) (last key id)
                (get_network-IsSound named id g) (λ t a f. f)))

  leave_network-IsSound :
      (key : List ℕ) (id : ℕ) (step : Step VlinkNetwork)
      → IsSound step.0
      → IsGiven id step.1
      → IsSound (leave_network rows key id step).0
  unfolding leave_network
  leave_network-IsSound key id (s, err e) sound given = sound
  leave_network-IsSound key id (s, panic) sound given = sound
  leave_network-IsSound key id (s, ok net) sound given =
      put_network-IsSound s id _ sound (offline-IsWell id net given key)

  disconnect-IsSound : (s : Server) (addr : ℕ) → IsSound s → IsSound (disconnect rows s addr).0
  unfolding disconnect remove_client go_offline
  disconnect-IsSound s addr sound =
      let gone = (remove_client s addr).0 in
      elim (Option-cases (s.clients addr)) [
        | inl e ↦ rw (e, disconnect, remove_client) sound
        | inr (none, e) ↦ rw (e, disconnect, remove_client) sound
        | inr (some (key, id), e) ↦
            rw (e, disconnect, remove_client)
              (leave_network-IsSound key id (get_network rows gone id)
                (get_network-IsSound gone id sound) (get_network-IsGiven gone id sound))
      ]

  module _ (db : Database) where
    Move-IsSound : {s t : Server} → Move rows db s t → IsSound s → IsSound t
    unfolding insert_client
    Move-IsSound (connects s addr) sound = sound
    Move-IsSound (shakes s addr key token) sound = handshake0-IsSound s addr key token sound
    Move-IsSound (serves s addr id net ctx request named there) sound =
        put_network-IsSound s id _ sound (process-IsWell id net (sound id net there) db ctx request)
    Move-IsSound (disconnects s addr) sound = disconnect-IsSound s addr sound

    pub Reach-IsSound : {s : Server} → Reach rows db s → IsSound s
    unfolding new_server
    Reach-IsSound start = λ id net h. none-some h
    Reach-IsSound (next reached move) = Move-IsSound move (Reach-IsSound reached)

    -- In every server that a new one reaches by the steps of its clients, a network stands under its
    -- own identifier, and the peer that it has for a key carries that key in its row.
    pub Reach-IsOwn :
        {s : Server} (id : ℕ) (net : VlinkNetwork) (k : List ℕ) (peer : VlinkPeer)
        → Reach rows db s
        → s.networks id ≡ some net
        → lookup net.peers k ≡ some peer
        → (net.network_id ≡ id) × (peer.model.pub_key ≡ k)
    Reach-IsOwn id net k peer reached there known =
        let well = Reach-IsSound reached id net there in
        (well.0, lookup-IsKeyed net.peers k peer well.1 known)

    -- In every server that a new one reaches by the steps of its clients: whatever request of a
    -- client of a network it processes and whatever becomes of it, every other key of that network
    -- has the peer that it had before.
    pub Reach-Kept :
        {s : Server} (id : ℕ) (net : VlinkNetwork) (ctx : ClientRequest) (l : List ℕ)
        (request : ToServerData)
        → Reach rows db s
        → s.networks id ≡ some net
        → l ≢ ctx.pub_key
        → lookup (process db net ctx request).0.peers l ≡ lookup net.peers l
    Reach-Kept id net ctx l request reached there apart =
        process-Kept db net ctx l apart
          (λ peer known. (Reach-IsOwn id net ctx.pub_key peer reached there known).1) request
