-- ===== src/Peers/Routes.antt =====
-- Which peer an address is routed to: the table of networks agrees with what the peers allow.
use vlink.Prelude.{
  some_inj, none-some, ℕ, Bool, true, false, List, [], ◌∷◌, Option, some, if◌then◌else◌, ◌≡◌, refl,
  sym, ap, ◌∙◌, inl, inr, Bool-cases,
}
use vlink.Bytes.{bytes_eq, bytes_eq_iff}
use vlink.Noise.Crypto.{Primitives, LocalStaticSecret, PeerStaticSecret}
use vlink.Cidr.{Networks}
use vlink.Cidr.Laws.{IsLawful}
use vlink.Peers.{
  PeerEntry, PeerList, PeerConfig, put_entry, clear_list, route_all, entry_or_insert, insert_entry,
  secret_of, insert_peer, insert_peers, reset_peers,
}

if_same : {A : Type 0} (b : Bool) (a : A) → (if b then a else a) ≡ a
if_same true a = refl
if_same false a = refl

module _ {Net Table : Type 0} (n : Networks Net Table) where
  -- Whether a network stands in a list.
  abbrev pub has_net : List Net → Net → Bool
  has_net [] net = false
  has_net (m ∷ nets) net = if n.same_net net m then true else has_net nets net

  -- An entry of the table is a network that its peer allows, and every such network has an entry.
  pub record IsRouted (list : PeerList Net Table) : Type 0 where
    pub allowed :
        (net : Net) (key : List ℕ)
        → n.exact_match list.ips net ≡ some key
        → (e : PeerEntry Net) × (list.peers key ≡ some e) × (has_net e.allowed_ips net ≡ true)
    pub routed :
        (key : List ℕ) (e : PeerEntry Net) (net : Net)
        → list.peers key ≡ some e
        → has_net e.allowed_ips net ≡ true
        → (k : List ℕ) × (n.exact_match list.ips net ≡ some k)

  module _ (p : Primitives) (law : IsLawful n) where
    pub route_all-exact :
        (table : Table) (nets : List Net) (key : List ℕ) (net : Net)
        → n.exact_match (route_all n p table nets key) net
          ≡ (if has_net nets net then some key else n.exact_match table net)
    unfolding route_all
    route_all-exact table [] key net = refl
    route_all-exact table (m ∷ nets) key net =
        let rest = route_all-exact (n.insert_net table m key) nets key net in
        let first = law.exact-insert table m net key in
        elim (Bool-cases (n.same_net net m)) [
          | inl same ↦ rw (rest, first, same) (if_same (has_net nets net) (some key))
          | inr apart ↦ rw (rest, first, apart) refl
        ]

    clear_list-IsRouted : (list : PeerList Net Table) → IsRouted (clear_list n p list)
    unfolding clear_list
    clear_list-IsRouted list = record {
      allowed = λ net key h. absurd (none-some (sym (law.exact-new net) ∙ h));
      routed = λ key e net h a. absurd (none-some h);
    }

    module _ (list : PeerList Net Table) (key : List ℕ) (entry : PeerEntry Net) where
      abbrev put : List ℕ → Option (PeerEntry Net)
      put = (put_entry n p list key entry).peers

      put_self : (k : List ℕ) → bytes_eq k key ≡ true → put k ≡ some entry
      put_self k same = rw (same) refl

      put_other : (k : List ℕ) → bytes_eq k key ≡ false → put k ≡ list.peers k
      put_other k apart = rw (apart) refl

      -- The table after `insert`.
      abbrev table : Table
      table = route_all n p list.ips entry.allowed_ips key

      table_own :
          (net : Net) → has_net entry.allowed_ips net ≡ true → n.exact_match table net ≡ some key
      table_own net mine = route_all-exact list.ips entry.allowed_ips key net ∙ rw (mine) refl

      table_other :
          (net : Net)
          → has_net entry.allowed_ips net ≡ false
          → n.exact_match table net ≡ n.exact_match list.ips net
      table_other net other = route_all-exact list.ips entry.allowed_ips key net ∙ rw (other) refl

      module _ (old : (e : PeerEntry Net) → list.peers key ≡ some e → e ≡ entry)
          (h : IsRouted list) where
        put_allowed :
            (net : Net) (k : List ℕ)
            → n.exact_match table net ≡ some k
            → (e : PeerEntry Net) × (put k ≡ some e) × (has_net e.allowed_ips net ≡ true)
        put_allowed net k found = elim (Bool-cases (has_net entry.allowed_ips net)) [
          | inl mine ↦
              let same = some_inj (sym found ∙ table_own net mine) in
              (entry, put_self k ((bytes_eq_iff k key).1 same), mine)
          | inr other ↦
              let (e, known, has) = h.allowed net k (sym (table_other net other) ∙ found) in
              elim (Bool-cases (bytes_eq k key)) [
                | inl same ↦
                    let is_key = (bytes_eq_iff k key).0 same in
                    let is_entry = old e (sym (ap list.peers is_key) ∙ known) in
                    (
                      entry,
                      put_self k same,
                      ap (λ (x : PeerEntry Net). has_net x.allowed_ips net) (sym is_entry) ∙ has,
                    )
                | inr apart ↦ (e, put_other k apart ∙ known, has)
              ]
        ]

        put_routed :
            (k : List ℕ) (e : PeerEntry Net) (net : Net)
            → put k ≡ some e
            → has_net e.allowed_ips net ≡ true
            → (found : List ℕ) × (n.exact_match table net ≡ some found)
        put_routed k e net known has = elim (Bool-cases (has_net entry.allowed_ips net)) [
          | inl mine ↦ (key, table_own net mine)
          | inr other ↦ elim (Bool-cases (bytes_eq k key)) [
            | inl same ↦
                let is_entry = some_inj (sym (put_self k same) ∙ known) in
                let mine = ap (λ (x : PeerEntry Net). has_net x.allowed_ips net) is_entry ∙ has in
                (key, table_own net mine)
            | inr apart ↦
                let (found, there) = h.routed k e net (sym (put_other k apart) ∙ known) has in
                (found, table_other net other ∙ there)
          ]
        ]

    entry_or_insert_known :
        (list : PeerList Net Table) (secret : PeerStaticSecret) (cfg : PeerConfig Net) (now : ℕ)
        (e : PeerEntry Net)
        → list.peers secret.public ≡ some e
        → e ≡ entry_or_insert n p list secret cfg now
    unfolding entry_or_insert
    entry_or_insert_known list secret cfg now e known = rw (known, entry_or_insert) refl

    pub insert_entry-IsRouted :
        (list : PeerList Net Table) (secret : PeerStaticSecret) (cfg : PeerConfig Net) (now : ℕ)
        → IsRouted list
        → IsRouted (insert_entry n p list secret cfg now)
    unfolding insert_entry
    insert_entry-IsRouted list secret cfg now h =
        let entry = entry_or_insert n p list secret cfg now in
        let old = entry_or_insert_known list secret cfg now in
        record {
          allowed = put_allowed list secret.public entry old h;
          routed = put_routed list secret.public entry old h;
        }

    insert_peers-IsRouted :
        (local : LocalStaticSecret) (list : PeerList Net Table) (cfgs : List (PeerConfig Net))
        (now : ℕ)
        → IsRouted list
        → IsRouted (insert_peers n p local list cfgs now)
    unfolding insert_peers insert_peer
    insert_peers-IsRouted local list [] now h = h
    insert_peers-IsRouted local list (cfg ∷ cfgs) now h =
        insert_peers-IsRouted local (insert_peer n p local list cfg now) cfgs now
          (insert_entry-IsRouted list (secret_of n p local cfg) cfg now h)

    -- After `reset_peers` with any configurations, where a key may stand twice, every entry of the
    -- table of networks leads to a known peer that allows the network, and every network that a
    -- known peer allows has an entry. The crates are taken to be lawful.
    pub reset_peers-IsRouted :
        (local : LocalStaticSecret) (list : PeerList Net Table) (cfgs : List (PeerConfig Net))
        (now : ℕ)
        → IsRouted (reset_peers n p local list cfgs now)
    unfolding reset_peers
    reset_peers-IsRouted local list cfgs now =
        insert_peers-IsRouted local (clear_list n p list) cfgs now (clear_list-IsRouted list)
