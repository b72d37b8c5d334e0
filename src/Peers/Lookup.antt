-- ===== src/Peers/Lookup.antt =====
-- The peer that an address is looked up to allows it.
use vlink.Prelude.{
  some_inj, none-some, ℕ, ◌≤◌, true, false, List, some, ◌≡◌, refl, sym, ap, ◌∙◌, inl, inr,
  Option-cases,
}
use vlink.Noise.Crypto.{Primitives}
use vlink.Cidr.{IpAddr, Networks, lookup_ip}
use vlink.Cidr.Laws.{IsLawful}
use vlink.Peers.{PeerEntry, PeerList, get_by_ip}
use vlink.Peers.Routes.{IsRouted, has_net}

true-false : true ≡ false → ⊥
true-false h = cc

module _ {Net Table : Type 0} (n : Networks Net Table) (p : Primitives) (law : IsLawful n) where
  -- What the lookup of an address gives: a peer, and a network of it that holds the address.
  pub record IsHome (list : PeerList Net Table) (ip : IpAddr) (key : List ℕ) : Type 0 where
    pub entry : PeerEntry Net
    pub net : Net
    pub known : list.peers key ≡ some entry
    pub mine : has_net n entry.allowed_ips net ≡ true
    pub inside : n.holds net ip ≡ true

  pub get_by_ip-IsHome :
      (list : PeerList Net Table) (ip : IpAddr) (key : List ℕ)
      → IsRouted n list
      → get_by_ip n p list ip ≡ some key
      → IsHome list ip key
  unfolding get_by_ip lookup_ip
  get_by_ip-IsHome list ip key h found = elim (Option-cases (n.longest_match list.ips ip)) [
    | inl e ↦ absurd (none-some (sym (rw (e, lookup_ip) refl) ∙ found))
    | inr ((net, k), e) ↦
        let is_key = some_inj (sym (rw (e, lookup_ip) refl) ∙ found) in
        let (there, inside) = law.match_entry list.ips ip net k e in
        let (entry, known, mine) = h.allowed net key (there ∙ ap some is_key) in
        record { entry = entry; net = net; known = known; mine = mine; inside = inside }
  ]

  -- Where the table of networks agrees with what the peers allow, and some known peer allows a
  -- network that holds an address: `get_by_ip` gives a known peer for the address, which allows a
  -- network that holds it, of a prefix at least as long. The crates are taken to be lawful.
  pub get_by_ip-longest :
      (list : PeerList Net Table) (ip : IpAddr) (k : List ℕ) (e1 : PeerEntry Net) (other : Net)
      → IsRouted n list
      → list.peers k ≡ some e1
      → has_net n e1.allowed_ips other ≡ true
      → n.holds other ip ≡ true
      → (key : List ℕ) × (home : IsHome list ip key) × (get_by_ip n p list ip ≡ some key)
        × (n.netmask other ≤ n.netmask home.net)
  unfolding get_by_ip lookup_ip
  get_by_ip-longest list ip k e1 other h known mine inside =
      elim (Option-cases (n.longest_match list.ips ip)) [
        | inl e ↦
            let (found, there) = h.routed k e1 other known mine in
            absurd (true-false (sym inside ∙ law.match_none list.ips ip other found e there))
        | inr ((net, key), e) ↦
            let (there, within) = law.match_entry list.ips ip net key e in
            let (entry, known2, mine2) = h.allowed net key there in
            let (found, there2) = h.routed k e1 other known mine in
            (
              key,
              record { entry = entry; net = net; known = known2; mine = mine2; inside = within },
              rw (e, lookup_ip) refl,
              law.match_longest list.ips ip net other key found e there2 inside,
            )
      ]
