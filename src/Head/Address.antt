-- ===== src/Head/Address.antt =====
-- The choice of an address for a peer, headlink/src/client/handler/req_config.rs, and the text of an IPv4
-- address. The addresses of a network come from the crate ip_network.
use vlink.Prelude.{
  ℕ, ◌+◌, ◌-◌, ◌*◌, ◌/◌, ◌%◌, ◌^◌, ◌==◌, Bool, true, false, not, ◌&&◌, List, [], ◌∷◌, ◌++◌, length,
  drop, ltb, leb, Option, none, some, if◌then◌else◌,
}
use vlink.Bytes.{bytes_eq}
use vlink.Head.{VlinkPeer}

-- `Ipv4Addr::to_string`
unfoldable pub decimal : ℕ → List ℕ
decimal n =
    if ltb n 10
    then (48 + n) ∷ []
    else if ltb n 100
    then (48 + n / 10) ∷ (48 + n % 10) ∷ []
    else (48 + n / 100) ∷ (48 + n / 10 % 10) ∷ (48 + n % 10) ∷ []

unfoldable pub show_ip : ℕ → List ℕ
show_ip addr =
    decimal (addr / 2 ^ 24 % 256)
    ++ 46
      ∷ (decimal (addr / 2 ^ 16 % 256)
          ++ 46 ∷ (decimal (addr / 2 ^ 8 % 256) ++ 46 ∷ decimal (addr % 256)))

-- `Ipv4Addr::from_str`: four numbers below 256 of at most three digits and without a leading zero.
abbrev pub is_digit : ℕ → Bool
is_digit c = leb 48 c && leb c 57

abbrev pub digits : List ℕ → List ℕ
digits [] = []
digits (c ∷ cs) = let rest = digits cs in if is_digit c then c ∷ rest else []

abbrev pub octet : List ℕ → Option ℕ
octet (a ∷ []) = some (a - 48)
octet (a ∷ b ∷ []) = if a == 48 then none else some ((a - 48) * 10 + (b - 48))
octet (a ∷ b ∷ c ∷ []) =
    let n = (a - 48) * 100 + (b - 48) * 10 + (c - 48) in
    if a == 48 then none else if ltb n 256 then some n else none
octet cs = none

-- A number and what follows it, behind a dot where one is asked for.
abbrev pub take_octet : Bool → List ℕ → Option (ℕ × List ℕ)
take_octet true [] = none
take_octet true (c ∷ cs) =
    if c == 46
    then elim (octet (digits cs)) [ none ↦ none | some n ↦ some (n, drop (length (digits cs)) cs) ]
    else none
take_octet false cs = elim (octet (digits cs)) [
  | none ↦ none
  | some n ↦ some (n, drop (length (digits cs)) cs)
]

unfoldable pub parse_ip : List ℕ → Option ℕ
parse_ip text = elim (take_octet false text) [
  | none ↦ none
  | some a ↦ elim (take_octet true a.1) [
    | none ↦ none
    | some b ↦ elim (take_octet true b.1) [
      | none ↦ none
      | some c ↦ elim (take_octet true c.1) [
        | none ↦ none
        | some d ↦
            if length d.1 == 0 then some (a.0 * 2 ^ 24 + b.0 * 2 ^ 16 + c.0 * 2 ^ 8 + d.0) else none
      ]
    ]
  ]
]

-- The addresses that peers hold, as text.
unfoldable pub peer_ips : List (List ℕ × VlinkPeer) → List (List ℕ)
peer_ips [] = []
peer_ips ((k, peer) ∷ peers) = elim peer.model.ip [
  | none ↦ peer_ips peers
  | some ip ↦ ip ∷ peer_ips peers
]

-- `peer_ips.iter().all(|p| p != i)`
unfoldable pub none_equal : List (List ℕ) → List ℕ → Bool
none_equal [] ip = true
none_equal (p ∷ ips) ip = not (bytes_eq p ip) && none_equal ips ip

-- `find`
unfoldable pub find_free : List (List ℕ) → List ℕ → Option ℕ
find_free ips [] = none
find_free ips (addr ∷ addrs) =
    let rest = find_free ips addrs in if none_equal ips (show_ip addr) then some addr else rest

-- `generate_ip`, with the addresses of the network.
unfoldable pub generate_ip : List ℕ → List (List ℕ × VlinkPeer) → Option ℕ
generate_ip addresses peers = find_free (peer_ips peers) (drop 2 addresses)
