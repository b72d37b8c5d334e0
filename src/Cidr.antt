-- ===== src/Cidr.antt =====
-- vlink-tun/src/device/peer/cidr.rs over the crates ip_network and ip_network_table. A table holds the keys
-- of peers.
pub mod Laws
pub mod Examples
use vlink.Prelude.{ℕ, Bool, true, false, List, Option, none, some, map}
use vlink.Outcome.{Outcome, ok, panic}
use vlink.Protocol.{Error}

-- `IpAddr`, with its octets.
pub data IpAddr : Type 0 where
  ip_v4 ip_v6 : List ℕ → IpAddr

-- What the two crates give: a network of an address and a mask, and a table from networks to keys.
pub record Networks (Net Table : Type 0) : Type 0 where
  pub new_truncate : IpAddr → ℕ → Option Net
  pub netmask : Net → ℕ
  pub holds : Net → IpAddr → Bool
  pub same_net : Net → Net → Bool
  pub new_table : Table
  pub insert_net : Table → Net → List ℕ → Table
  pub exact_match : Table → Net → Option (List ℕ)
  pub longest_match : Table → IpAddr → Option (Net × List ℕ)

unfoldable pub max_mask_for_ip : IpAddr → ℕ
max_mask_for_ip (ip_v4 octets) = 32
max_mask_for_ip (ip_v6 octets) = 128

module _ {Net Table : Type 0} (n : Networks Net Table) where
  -- `Cidr::new`
  unfoldable pub new_cidr : IpAddr → ℕ → Outcome Error Net
  new_cidr ip mask = elim (n.new_truncate ip mask) [ none ↦ panic | some net ↦ ok net ]

  -- `Cidr::from`
  unfoldable pub cidr_of_ip : IpAddr → Outcome Error Net
  unfolding new_cidr
  cidr_of_ip ip = new_cidr ip (max_mask_for_ip ip)

  -- `CidrTable::get_by_ip`
  unfoldable pub lookup_ip : Table → IpAddr → Option (List ℕ)
  lookup_ip table ip = elim (n.longest_match table ip) [ none ↦ none | some found ↦ some found.1 ]
