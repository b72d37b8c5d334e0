-- ===== src/Peers/Examples.antt =====
-- Two peers in a table of networks, at stand-ins for the crates.
use vlink.Prelude.{ℕ, ◌≤◌, true, List, [], ◌∷◌, Option, none, some, ◌≡◌, refl}
use vlink.Bytes.{bytes_eq}
use vlink.Noise.Crypto.{with_peer, set_psk, local_secret}
use vlink.Noise.Examples.{stand_in, alice}
use vlink.Cidr.{ip_v4}
use vlink.Cidr.Examples.{Range, everything, host, ranges, ranges-IsLawful}
use vlink.Peers.{
  PeerEntry, PeerList, PeerConfig, new_list, get_by_ip, clear_list, route_all, entry_or_insert,
  insert_entry, secret_of, insert_peer, insert_peers, reset_peers,
}
use vlink.Peers.Routes.{IsRouted, reset_peers-IsRouted}
use vlink.Peers.Lookup.{IsHome, get_by_ip-longest}

abbrev config : List ℕ → List Range → PeerConfig Range
config key ips = record {
  public_key = key;
  allowed_ips = ips;
  endpoint = some 5;
  preshared_key = none;
  is_online = true;
  persistent_keepalive = none;
}

abbrev home : List ℕ
home = 10 ∷ 0 ∷ 0 ∷ 2 ∷ []

-- A gateway that takes every address, and a peer with one.
abbrev configs : List (PeerConfig Range)
configs = config (1 ∷ []) (everything ∷ []) ∷ config (2 ∷ []) (host home ∷ []) ∷ []

abbrev start : PeerList Range (Range → Option (List ℕ))
start = new_list ranges stand_in 7

abbrev list : PeerList Range (Range → Option (List ℕ))
list = reset_peers ranges stand_in (local_secret stand_in alice) start configs 0

list-IsRouted : IsRouted ranges list
list-IsRouted =
    reset_peers-IsRouted ranges stand_in ranges-IsLawful (local_secret stand_in alice) start configs
      0

reset_peers-IsRouted_example : IsRouted ranges list
reset_peers-IsRouted_example =
    reset_peers-IsRouted ranges stand_in ranges-IsLawful (local_secret stand_in alice) start configs
      0

abbrev gateway : PeerEntry Range
gateway =
    entry_or_insert ranges stand_in (clear_list ranges stand_in start)
      (secret_of ranges stand_in (local_secret stand_in alice) (config (1 ∷ []) (everything ∷ [])))
      (config (1 ∷ []) (everything ∷ [])) 0

get_by_ip-longest_example :
    (key : List ℕ) × (found : IsHome ranges stand_in ranges-IsLawful list (ip_v4 home) key)
    × (get_by_ip ranges stand_in list (ip_v4 home) ≡ some key)
    × (0 ≤ ranges.netmask found.net)
unfolding new_list reset_peers clear_list insert_peers insert_peer insert_entry entry_or_insert
    route_all secret_of with_peer set_psk local_secret bytes_eq
get_by_ip-longest_example =
    get_by_ip-longest ranges stand_in ranges-IsLawful list (ip_v4 home) (1 ∷ []) gateway everything
      list-IsRouted refl refl refl
