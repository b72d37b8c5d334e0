-- ===== src/Cidr/Laws.antt =====
-- What the table of allowed addresses relies on in the crates: an entry per network, and a lookup
-- that gives the entry of the longest prefix that holds the address.
use vlink.Prelude.{ℕ, ◌≤◌, true, false, List, none, some, if◌then◌else◌, ◌≡◌}
use vlink.Cidr.{IpAddr, Networks}

pub record IsLawful {Net Table : Type 0} (n : Networks Net Table) : Type 0 where
  pub same_refl : (net : Net) → n.same_net net net ≡ true
  pub same_eq : (net other : Net) → n.same_net net other ≡ true → net ≡ other
  pub exact-new : (net : Net) → n.exact_match n.new_table net ≡ none
  pub exact-insert :
      (table : Table) (net other : Net) (key : List ℕ)
      → n.exact_match (n.insert_net table net key) other
        ≡ (if n.same_net other net then some key else n.exact_match table other)
  pub match_entry :
      (table : Table) (ip : IpAddr) (net : Net) (key : List ℕ)
      → n.longest_match table ip ≡ some (net, key)
      → (n.exact_match table net ≡ some key) × (n.holds net ip ≡ true)
  pub match_longest :
      (table : Table) (ip : IpAddr) (net other : Net) (key k : List ℕ)
      → n.longest_match table ip ≡ some (net, key)
      → n.exact_match table other ≡ some k
      → n.holds other ip ≡ true
      → n.netmask other ≤ n.netmask net
  pub match_none :
      (table : Table) (ip : IpAddr) (other : Net) (k : List ℕ)
      → n.longest_match table ip ≡ none
      → n.exact_match table other ≡ some k
      → n.holds other ip ≡ false
