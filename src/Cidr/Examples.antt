-- ===== src/Cidr/Examples.antt =====
-- Stand-ins for the crates that keep networks.
use vlink.Prelude.{
  some_inj, none-some, ℕ, ◌==◌, ◌≤◌, Bool, true, false, List, Option, none, some, if◌then◌else◌,
  ◌≡◌, refl, sym, ap, ◌∙◌, inl, inr, Option-cases, Bool-cases, ◌⊎◌, arith,
}
use vlink.Bytes.{bytes_eq, bytes_eq_iff}
use vlink.Cidr.{IpAddr, ip_v4, ip_v6, Networks}
use vlink.Cidr.Laws.{IsLawful}

-- A stand-in with two kinds of network: all addresses, and one address.
pub data Range : Type 0 where
  everything : Range
  host : List ℕ → Range

abbrev pub octets_of : IpAddr → List ℕ
octets_of (ip_v4 octets) = octets
octets_of (ip_v6 octets) = octets

abbrev pub same_range : Range → Range → Bool
same_range everything everything = true
same_range everything (host octets) = false
same_range (host octets) everything = false
same_range (host octets) (host others) = bytes_eq octets others

abbrev pub holds_ip : Range → IpAddr → Bool
holds_ip everything ip = true
holds_ip (host octets) ip = bytes_eq octets (octets_of ip)

abbrev pub prefix : Range → ℕ
prefix everything = 0
prefix (host octets) = 32

abbrev pub longest : (Range → Option (List ℕ)) → IpAddr → Option (Range × List ℕ)
longest table ip = elim (table (host (octets_of ip))) [
  | some key ↦ some (host (octets_of ip), key)
  | none ↦ elim (table everything) [ none ↦ none | some key ↦ some (everything, key) ]
]

abbrev pub ranges : Networks Range (Range → Option (List ℕ))
ranges = record {
  new_truncate = λ ip mask. if mask == 0 then some everything else some (host (octets_of ip));
  netmask = prefix;
  holds = holds_ip;
  same_net = same_range;
  new_table = λ net. none;
  insert_net = λ table net key. λ other. if same_range other net then some key else table other;
  exact_match = λ table net. table net;
  longest_match = longest;
}

range_refl : (net : Range) → same_range net net ≡ true
range_refl everything = refl
range_refl (host octets) = (bytes_eq_iff octets octets).1 refl

range_eq : (net other : Range) → same_range net other ≡ true → net ≡ other
range_eq everything everything h = refl
range_eq everything (host octets) h = absurd (cc)
range_eq (host octets) everything h = absurd (cc)
range_eq (host octets) (host others) h = ap host ((bytes_eq_iff octets others).0 h)

longest-host :
    (table : Range → Option (List ℕ)) (ip : IpAddr) (key : List ℕ)
    → table (host (octets_of ip)) ≡ some key
    → longest table ip ≡ some (host (octets_of ip), key)
longest-host table ip key e = rw (e, longest) refl

longest-everything :
    (table : Range → Option (List ℕ)) (ip : IpAddr) (key : List ℕ)
    → table (host (octets_of ip)) ≡ none
    → table everything ≡ some key
    → longest table ip ≡ some (everything, key)
longest-everything table ip key e f = rw (e, longest, f) refl

longest-none :
    (table : Range → Option (List ℕ)) (ip : IpAddr)
    → table (host (octets_of ip)) ≡ none
    → table everything ≡ none
    → longest table ip ≡ none
longest-none table ip e f = rw (e, longest, f) refl

pair_eq :
    {net other : Range} {key k : List ℕ}
    → ◌≡◌ {A = Option (Range × List ℕ)} (some (net, key)) (some (other, k))
    → (net ≡ other) × (key ≡ k)
pair_eq {net} {other} {key} {k} h =
    let same : (net, key) ≡ (other, k) = some_inj h in (ap (λ x. x.0) same, ap (λ x. x.1) same)

-- Where the lookup finds something, it is one of the two.
record IsFound (table : Range → Option (List ℕ)) (ip : IpAddr) (net : Range) (key : List ℕ)
    : Type 0 where
  there : table net ≡ some key
  inside : holds_ip net ip ≡ true
  best : (prefix net ≡ 32) ⊎ (table (host (octets_of ip)) ≡ none)

IsFound-move :
    (table : Range → Option (List ℕ)) (ip : IpAddr) (net other : Range) (key k : List ℕ)
    → net ≡ other
    → key ≡ k
    → table net ≡ some key
    → holds_ip net ip ≡ true
    → (prefix net ≡ 32) ⊎ (table (host (octets_of ip)) ≡ none)
    → IsFound table ip other k
IsFound-move table ip net other key k same same_key there inside best = record {
  there = ap table (sym same) ∙ there ∙ ap some same_key;
  inside = ap (λ m. holds_ip m ip) (sym same) ∙ inside;
  best = elim best [ inl e ↦ inl (ap prefix (sym same) ∙ e) | inr e ↦ inr e ];
}

longest-IsFound :
    (table : Range → Option (List ℕ)) (ip : IpAddr) (net : Range) (key : List ℕ)
    → longest table ip ≡ some (net, key)
    → IsFound table ip net key
longest-IsFound table ip net key h = elim (Option-cases (table (host (octets_of ip)))) [
  | inr (k, e) ↦
      let same = pair_eq (sym (longest-host table ip k e) ∙ h) in
      IsFound-move table ip (host (octets_of ip)) net k key same.0 same.1 e
        ((bytes_eq_iff (octets_of ip) (octets_of ip)).1 refl) (inl refl)
  | inl e ↦ elim (Option-cases (table everything)) [
    | inr (k, f) ↦
        let same = pair_eq (sym (longest-everything table ip k e f) ∙ h) in
        IsFound-move table ip everything net k key same.0 same.1 f refl (inr e)
    | inl f ↦ none-some (sym (longest-none table ip e f) ∙ h)
  ]
]

host_prefix :
    (table : Range → Option (List ℕ)) (ip : IpAddr) (other : Range) (k : List ℕ)
    → table (host (octets_of ip)) ≡ none
    → table other ≡ some k
    → holds_ip other ip ≡ true
    → prefix other ≤ 0
host_prefix table ip everything k e there inside = omega arith
host_prefix table ip (host octets) k e there inside =
    let same = (bytes_eq_iff octets (octets_of ip)).0 inside in
    none-some (sym e ∙ ap (λ o. table (host o)) (sym same) ∙ there)

prefix-le : (net : Range) → prefix net ≤ 32
prefix-le everything = omega arith
prefix-le (host octets) = omega arith

-- Nothing found: no entry holds the address.
outside :
    (table : Range → Option (List ℕ)) (ip : IpAddr) (other : Range) (k : List ℕ)
    → longest table ip ≡ none
    → table other ≡ some k
    → holds_ip other ip ≡ false
outside table ip everything k h there = elim (Option-cases (table (host (octets_of ip)))) [
  | inr (key, e) ↦ none-some (sym h ∙ longest-host table ip key e)
  | inl e ↦ none-some (sym h ∙ longest-everything table ip k e there)
]
outside table ip (host octets) k h there = elim (Bool-cases (bytes_eq octets (octets_of ip))) [
  | inl same ↦
      let e =
        ap (λ o. table (host o)) (sym ((bytes_eq_iff octets (octets_of ip)).0 same)) ∙ there in
      none-some (sym h ∙ longest-host table ip k e)
  | inr apart ↦ apart
]

pub ranges-IsLawful : IsLawful ranges
ranges-IsLawful = record {
  same_refl = range_refl;
  same_eq = range_eq;
  exact-new = λ net. refl;
  exact-insert = λ table net other key. refl;
  match_entry = λ table ip net key h.
      let found = longest-IsFound table ip net key h in (found.there, found.inside);
  match_longest = λ table ip net other key k h there inside.
      elim (longest-IsFound table ip net key h).best [
        | inl long ↦ omega (arith, long, prefix-le other)
        | inr e ↦ omega (arith, host_prefix table ip other k e there inside)
      ];
  match_none = λ table ip other k h there. outside table ip other k h there;
}
