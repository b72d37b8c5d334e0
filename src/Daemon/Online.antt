-- ===== src/Daemon/Online.antt =====
-- Which peers of its device the daemon takes to be online.
use vlink.Prelude.{
  ℕ, ◌==◌, Bool, true, false, List, [], ◌∷◌, length, Option, none, some, if◌then◌else◌, ◌≡◌, refl,
  sym, ap, ◌∙◌, inl, inr, Bool-cases, Option-cases,
}
use vlink.Bytes.{bytes_eq, bytes_eq_iff}
use vlink.Outcome.{Outcome, ok, err, panic, ok_inj, bind-eq-ok}
use vlink.Head.{
  ToClientData, peer_enter, peer_leave, update_extra_endpoint, require_reply, resp_config,
  resp_handshake, client_error,
}
use vlink.Head.Requests.{ToServerData}
use vlink.Noise.Crypto.{Primitives}
use vlink.Cidr.{Networks}
use vlink.Peer.{Peer, set_online}
use vlink.Peers.{PeerEntry, PeerList}
use vlink.Daemon.{
  Crates, DaemonError, bad_key, ArgConfig, NetworkCtrlCmd, req_info, change_ip, first_connected,
  connected, to_client_data,
}
use vlink.Daemon.Config.{try_option, key_of_bytes}
use vlink.Daemon.Events.{
  Statuses, change_peer, mark_online, handle_to_client_data, handle_cmd, handle_cmds,
}

panic-ne-ok : {A : Type 0} {a : A} → ◌≡◌ {A = Outcome DaemonError A} panic (ok a) → ⊥
panic-ne-ok h = cc

err-ne-ok :
    {A : Type 0} {x : DaemonError} {a : A} → ◌≡◌ {A = Outcome DaemonError A} (err x) (ok a) → ⊥
err-ne-ok h = cc

key_of_bytes-ok : (bytes key : List ℕ) → key_of_bytes bytes ≡ ok key → bytes ≡ key
unfolding key_of_bytes
key_of_bytes-ok bytes key h = elim (Bool-cases (length bytes == 32)) [
  | inl e ↦ ok_inj (sym (rw (key_of_bytes, e) refl) ∙ h)
  | inr e ↦ absurd (panic-ne-ok (sym (rw (key_of_bytes, e) refl) ∙ h))
]

try_option-ok :
    (o : Option (List ℕ)) (bytes : List ℕ) → try_option bad_key o ≡ ok bytes → o ≡ some bytes
try_option-ok none bytes h = absurd (err-ne-ok h)
try_option-ok (some b) bytes h = ap some (ok_inj h)

module _ {Net Table : Type 0} (n : Networks Net Table) (p : Primitives) (crates : Crates) where
  -- Whether the text of a key is that of a key.
  abbrev names : List ℕ → List ℕ → Bool
  names text key = elim (crates.decode_base64 text) [
    | none ↦ false
    | some bytes ↦ bytes_eq key bytes
  ]

  -- What the messages say last of a key.
  abbrev said : List ℕ → ToClientData → Bool → Bool
  said key (peer_enter e) before = if names e.pub_key key then true else before
  said key (peer_leave text) before = if names text key then false else before
  said key (update_extra_endpoint k proto endpoint) before = before
  said key (require_reply r) before = before
  said key (resp_config c) before = before
  said key (resp_handshake b) before = before
  said key client_error before = before

  abbrev pub last_said : List ℕ → List NetworkCtrlCmd → Bool → Bool
  last_said key [] before = before
  last_said key (to_client_data body ∷ cmds) before = last_said key cmds (said key body before)
  last_said key (change_ip ∷ cmds) before = last_said key cmds before
  last_said key (req_info ∷ cmds) before = last_said key cmds before
  last_said key (first_connected ∷ cmds) before = last_said key cmds before
  last_said key (connected ∷ cmds) before = last_said key cmds before

  -- A peer that the device has, and its flag.
  abbrev pub IsFlagged : PeerList Net Table → List ℕ → Bool → Type 0
  IsFlagged list key online =
      (e : PeerEntry Net) × (list.peers key ≡ some e) × (e.peer.online ≡ online)

  IsFlagged-move :
      (list after : PeerList Net Table) (key : List ℕ) (online : Bool)
      → list ≡ after
      → IsFlagged list key online
      → IsFlagged after key online
  IsFlagged-move list after key online same (e, known, flag) =
      (e, ap (λ (l : PeerList Net Table). l.peers key) (sym same) ∙ known, flag)

  change_peer-same :
      (list : PeerList Net Table) (key : List ℕ) (entry : PeerEntry Net) (f : Peer → Peer)
      → list.peers key ≡ some entry
      → (change_peer n p crates list key f).peers key ≡ some (record entry { peer = f entry.peer })
  unfolding change_peer
  change_peer-same list key entry f known =
      rw (known, change_peer, (bytes_eq_iff key key).1 refl) refl

  change_peer-other :
      (list : PeerList Net Table) (k key : List ℕ) (f : Peer → Peer)
      → bytes_eq key k ≡ false
      → (change_peer n p crates list k f).peers key ≡ list.peers key
  unfolding change_peer
  change_peer-other list k key f apart = elim (Option-cases (list.peers k)) [
    | inl e ↦ rw (e, change_peer) refl
    | inr (entry, e) ↦ rw (e, change_peer, apart) refl
  ]

  mark_online-known :
      (list after : PeerList Net Table) (text : List ℕ) (online : Bool)
      → mark_online n p crates list text online ≡ ok after
      → (bytes : List ℕ) × (crates.decode_base64 text ≡ some bytes)
        × (after ≡ change_peer n p crates list bytes (λ peer. set_online peer online))
  unfolding mark_online
  mark_online-known list after text online h =
      let (bytes, e, rest) = bind-eq-ok (try_option bad_key (crates.decode_base64 text)) _ h in
      let (key, f, made) = bind-eq-ok (key_of_bytes bytes) _ rest in
      let same = key_of_bytes-ok bytes key f in
      (
        bytes,
        try_option-ok (crates.decode_base64 text) bytes e,
        sym (ok_inj made)
            ∙ ap (λ k. change_peer n p crates list k (λ peer. set_online peer online)) (sym same),
      )

  mark_online-IsFlagged :
      (list after : PeerList Net Table) (text key : List ℕ) (online before : Bool)
      → mark_online n p crates list text online ≡ ok after
      → IsFlagged list key before
      → IsFlagged after key (if names text key then online else before)
  unfolding set_online
  mark_online-IsFlagged list after text key online before h (entry, known, flag) =
      let (bytes, read, changed) = mark_online-known list after text online h in
      let set : Peer → Peer = λ peer. set_online peer online in
      let at : after.peers key ≡ (change_peer n p crates list bytes set).peers key =
        ap (λ (l : PeerList Net Table). l.peers key) changed in
      elim (Bool-cases (bytes_eq key bytes)) [
        | inl e ↦
            let same = (bytes_eq_iff key bytes).0 e in
            let there = change_peer-same list key entry set known in
            let named : names text key ≡ true = rw (names, read) e in
            rw (named) (
              record entry { peer = set entry.peer },
              at ∙ ap (λ k. (change_peer n p crates list k set).peers key) (sym same) ∙ there,
              refl,
            )
        | inr e ↦
            let other : names text key ≡ false = rw (names, read) e in
            rw (other) (entry, at ∙ change_peer-other list bytes key set e ∙ known, flag)
      ]

  handle_to_client_data-IsFlagged :
      (list after : PeerList Net Table) (body : ToClientData) (key : List ℕ) (before : Bool)
      → handle_to_client_data n p crates list body ≡ ok after
      → IsFlagged list key before
      → IsFlagged after key (said key body before)
  unfolding handle_to_client_data
  handle_to_client_data-IsFlagged list after (peer_enter e) key before h flagged =
      mark_online-IsFlagged list after e.pub_key key true before h flagged
  handle_to_client_data-IsFlagged list after (peer_leave text) key before h flagged =
      mark_online-IsFlagged list after text key false before h flagged
  handle_to_client_data-IsFlagged list after (update_extra_endpoint k o e) key before h flagged =
      IsFlagged-move list after key before (ok_inj h) flagged
  handle_to_client_data-IsFlagged list after (require_reply r) key before h flagged =
      IsFlagged-move list after key before (ok_inj h) flagged
  handle_to_client_data-IsFlagged list after (resp_config c) key before h flagged =
      IsFlagged-move list after key before (ok_inj h) flagged
  handle_to_client_data-IsFlagged list after (resp_handshake b) key before h flagged =
      IsFlagged-move list after key before (ok_inj h) flagged
  handle_to_client_data-IsFlagged list after client_error key before h flagged =
      IsFlagged-move list after key before (ok_inj h) flagged

  module _ (args : ArgConfig) (tun_addr port : ℕ) (statuses : Statuses) where
    abbrev said_by : List ℕ → NetworkCtrlCmd → Bool → Bool
    said_by key cmd before = last_said key (cmd ∷ []) before

    handle_cmd-IsFlagged :
        (list after : PeerList Net Table) (sent : List ToServerData) (cmd : NetworkCtrlCmd)
        (key : List ℕ) (before : Bool)
        → handle_cmd n p crates args tun_addr port statuses list cmd ≡ ok (after, sent)
        → IsFlagged list key before
        → IsFlagged after key (said_by key cmd before)
    unfolding handle_cmd
    handle_cmd-IsFlagged list after sent (to_client_data body) key before h flagged =
        let (changed, e, made) = bind-eq-ok (handle_to_client_data n p crates list body) _ h in
        let same = ap (λ x. x.0) (ok_inj made) in
        handle_to_client_data-IsFlagged list after body key before (e ∙ ap ok same) flagged
    handle_cmd-IsFlagged list after sent change_ip key before h flagged =
        IsFlagged-move list after key before (ap (λ x. x.0) (ok_inj h)) flagged
    handle_cmd-IsFlagged list after sent req_info key before h flagged =
        IsFlagged-move list after key before (ap (λ x. x.0) (ok_inj h)) flagged
    handle_cmd-IsFlagged list after sent first_connected key before h flagged =
        IsFlagged-move list after key before (ap (λ x. x.0) (ok_inj h)) flagged
    handle_cmd-IsFlagged list after sent connected key before h flagged =
        IsFlagged-move list after key before (ap (λ x. x.0) (ok_inj h)) flagged

    last_said-cons :
        (key : List ℕ) (cmd : NetworkCtrlCmd) (cmds : List NetworkCtrlCmd) (before : Bool)
        → last_said key cmds (said_by key cmd before) ≡ last_said key (cmd ∷ cmds) before
    last_said-cons key (to_client_data body) cmds before = refl
    last_said-cons key change_ip cmds before = refl
    last_said-cons key req_info cmds before = refl
    last_said-cons key first_connected cmds before = refl
    last_said-cons key connected cmds before = refl

    -- Where the loop over the commands does not fail: a peer that the device had before is one that
    -- it has behind it, and its flag is what the last message about its key said, or what it was
    -- where none was about it.
    pub handle_cmds-IsFlagged :
        (list after : PeerList Net Table) (sent : List ToServerData) (cmds : List NetworkCtrlCmd)
        (key : List ℕ) (before : Bool)
        → handle_cmds n p crates args tun_addr port statuses list cmds ≡ ok (after, sent)
        → IsFlagged list key before
        → IsFlagged after key (last_said key cmds before)
    unfolding handle_cmds
    handle_cmds-IsFlagged list after sent [] key before h flagged =
        IsFlagged-move list after key before (ap (λ x. x.0) (ok_inj h)) flagged
    handle_cmds-IsFlagged list after sent (cmd ∷ cmds) key before h flagged =
        let (first, e, rest) =
          bind-eq-ok (handle_cmd n p crates args tun_addr port statuses list cmd) _ h in
        let (others, f, made) =
          bind-eq-ok (handle_cmds n p crates args tun_addr port statuses first.0 cmds) _ rest in
        let same = ap (λ x. x.0) (ok_inj made) in
        let one = handle_cmd-IsFlagged list first.0 first.1 cmd key before e flagged in
        let all =
          handle_cmds-IsFlagged first.0 others.0 others.1 cmds key (said_by key cmd before) f one in
        (
          all.0,
          ap (λ (l : PeerList Net Table). l.peers key) (sym same) ∙ all.1,
          all.2 ∙ last_said-cons key cmd cmds before,
        )
