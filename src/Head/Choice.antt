-- ===== src/Head/Choice.antt =====
-- A chosen address is one of the network, and no peer holds it.
use vlink.Prelude.{
  ℕ, true, false, List, [], ◌∷◌, drop, some, some_inj, none-some, if◌then◌else◌, ◌≡◌, ◌≢◌, refl,
  sym, ap, ◌∙◌, inl, inr, Bool-cases, contains, arith,
}
use vlink.Bytes.{bytes_eq, bytes_eq_iff}
use vlink.Head.{VlinkPeer, lookup}
use vlink.Head.Address.{show_ip, peer_ips, none_equal, find_free, generate_ip}

true-false : true ≡ false → ⊥
true-false h = cc

-- The first entry of the list, and the others.
none_equal-tail :
    (j : List ℕ) (p : VlinkPeer) (peers : List (List ℕ × VlinkPeer)) (ip : List ℕ)
    → none_equal (peer_ips ((j, p) ∷ peers)) ip ≡ true
    → none_equal (peer_ips peers) ip ≡ true
unfolding none_equal peer_ips
none_equal-tail j p peers ip h = ground arith

none_equal-head :
    (j : List ℕ) (p : VlinkPeer) (peers : List (List ℕ × VlinkPeer)) (ip : List ℕ)
    → none_equal (peer_ips ((j, p) ∷ peers)) ip ≡ true
    → p.model.ip ≢ some ip
unfolding none_equal peer_ips
none_equal-head j p peers ip h held = ground (arith, (bytes_eq_iff ip ip).1 refl)

none_equal-free :
    (peers : List (List ℕ × VlinkPeer)) (k ip : List ℕ) (peer : VlinkPeer)
    → none_equal (peer_ips peers) ip ≡ true
    → lookup peers k ≡ some peer
    → peer.model.ip ≢ some ip
unfolding lookup
none_equal-free [] k ip peer free known held = none-some known
none_equal-free ((j, p) ∷ peers) k ip peer free known held = elim (Bool-cases (bytes_eq j k)) [
  | inl same ↦
      let is_peer = some_inj (sym (ap (λ b. if b then some p else lookup peers k) same) ∙ known) in
      none_equal-head j p peers ip free (ap (λ (q : VlinkPeer). q.model.ip) is_peer ∙ held)
  | inr apart ↦
      none_equal-free peers k ip peer (none_equal-tail j p peers ip free)
        (sym (ap (λ b. if b then some p else lookup peers k) apart) ∙ known) held
]

-- What `find` gives was tested, and is in the list.
find_free-found :
    (ips : List (List ℕ)) (addrs : List ℕ) (addr : ℕ)
    → find_free ips addrs ≡ some addr
    → (none_equal ips (show_ip addr) ≡ true) × (contains addrs addr ≡ true)
unfolding find_free contains
find_free-found ips [] addr h = none-some h
find_free-found ips (a ∷ addrs) addr h = ground (arith, find_free-found ips addrs addr)

-- Where `generate_ip` gives an address, it is one of the network's addresses after the first two,
-- and no peer that the network has for a key holds its text.
pub generate_ip-free :
    (addresses : List ℕ) (peers : List (List ℕ × VlinkPeer)) (addr : ℕ) (k : List ℕ)
    (peer : VlinkPeer)
    → generate_ip addresses peers ≡ some addr
    → lookup peers k ≡ some peer
    → (contains (drop 2 addresses) addr ≡ true) × (peer.model.ip ≢ some (show_ip addr))
unfolding generate_ip
generate_ip-free addresses peers addr k peer h known =
    let found = find_free-found (peer_ips peers) (drop 2 addresses) addr h in
    (found.1, none_equal-free peers k (show_ip addr) peer found.0 known)
