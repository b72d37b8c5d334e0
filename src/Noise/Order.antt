-- ===== src/Noise/Order.antt =====
-- The order of timestamps, `Ord` of vlink-tun/src/noise/timestamp.rs: the order of their bytes.
use vlink.Prelude.{
  ℕ, zero, suc, ◌+◌, ◌/◌, ◌%◌, ◌^◌, ◌<◌, ltb, ◌==◌, Bool, true, false, List, [], ◌∷◌, ◌++◌, length,
  if◌then◌else◌, ◌≡◌, ◌↔◌, ◌⊎◌, refl, sym, ap₂, ◌∙◌, arith,
}
use mathlib.Core.List.{reverse-cons}
use vlink.Bytes.{to_le_bytes, to_be_bytes, length-to_be_bytes, div_bound}
use vlink.Noise.Timestamp.{base, whiten, stamp}

-- `<` of two byte strings
unfoldable pub bytes_lt : List ℕ → List ℕ → Bool
bytes_lt [] [] = false
bytes_lt [] (b ∷ bs) = true
bytes_lt (a ∷ cs) [] = false
bytes_lt (a ∷ cs) (b ∷ bs) =
    let rest = bytes_lt cs bs in if ltb a b then true else if a == b then rest else false

bytes_lt-append :
    (xs ys us vs : List ℕ)
    → length xs ≡ length us
    → bytes_lt (xs ++ ys) (us ++ vs)
      ≡ (if bytes_lt xs us then true else if bytes_lt us xs then false else bytes_lt ys vs)
unfolding bytes_lt
bytes_lt-append [] ys [] vs h = refl
bytes_lt-append [] ys (u ∷ us) vs h = absurd (omega arith)
bytes_lt-append (x ∷ xs) ys [] vs h = absurd (omega arith)
bytes_lt-append (x ∷ xs) ys (u ∷ us) vs h =
    ground (arith, bytes_lt-append xs ys us vs (omega arith))

to_be_bytes-suc : (n x : ℕ) → to_be_bytes (suc n) x ≡ to_be_bytes n (x / 256) ++ (x % 256 ∷ [])
to_be_bytes-suc n x = reverse-cons (x % 256) (to_le_bytes n (x / 256))

-- The order of two numbers by their last byte and the rest.
ltb-digits :
    (x y : ℕ)
    → (if ltb (x / 256) (y / 256)
        then true
        else if ltb (y / 256) (x / 256)
        then false
        else bytes_lt (x % 256 ∷ []) (y % 256 ∷ []))
      ≡ ltb x y
unfolding bytes_lt
ltb-digits x y = ground arith

bytes_lt-to_be_bytes :
    (n x y : ℕ) → x < 256 ^ n → y < 256 ^ n → bytes_lt (to_be_bytes n x) (to_be_bytes n y) ≡ ltb x y
unfolding bytes_lt
bytes_lt-to_be_bytes zero x y hx hy =
    ap₂ ltb {x = 0} {y = x} {u = 0} {v = y} (omega arith) (omega arith)
bytes_lt-to_be_bytes (suc n) x y hx hy =
    let dx = div_bound n x hx in
    let dy = div_bound n y hy in
    ap₂ bytes_lt (to_be_bytes-suc n x) (to_be_bytes-suc n y)
    ∙ bytes_lt-append (to_be_bytes n (x / 256)) (x % 256 ∷ []) (to_be_bytes n (y / 256))
        (y % 256 ∷ []) (length-to_be_bytes n (x / 256) ∙ sym (length-to_be_bytes n (y / 256)))
    ∙ rw
        (
          bytes_lt-to_be_bytes n (x / 256) (y / 256) dx dy,
          bytes_lt-to_be_bytes n (y / 256) (x / 256) dy dx,
        )
        (ltb-digits x y)

-- For times whose seconds fit their label and whose nanoseconds are below a second: the earlier time
-- has the smaller stamp exactly where its second is earlier, or the second is the same and the
-- nanoseconds, divided by 2 ^ 24, are fewer.
pub bytes_lt-stamp_iff :
    (s n t m : ℕ)
    → base + s < 2 ^ 64
    → base + t < 2 ^ 64
    → n < 10 ^ 9
    → m < 10 ^ 9
    → (bytes_lt (stamp s n) (stamp t m) ≡ true) ↔ ((s < t) ⊎ ((s ≡ t) × (n / 2 ^ 24 < m / 2 ^ 24)))
unfolding stamp whiten
bytes_lt-stamp_iff s n t m hs ht hn hm =
    let big =
      bytes_lt-to_be_bytes 8 ((base + s) % 2 ^ 64) ((base + t) % 2 ^ 64) (omega arith)
        (omega arith) in
    let gib =
      bytes_lt-to_be_bytes 8 ((base + t) % 2 ^ 64) ((base + s) % 2 ^ 64) (omega arith)
        (omega arith) in
    let low = bytes_lt-to_be_bytes 4 (whiten n) (whiten m) (omega arith) (omega arith) in
    let split =
      bytes_lt-append (to_be_bytes 8 ((base + s) % 2 ^ 64)) (to_be_bytes 4 (whiten n))
        (to_be_bytes 8 ((base + t) % 2 ^ 64)) (to_be_bytes 4 (whiten m)) refl in
    rw (split, big, gib, low) (ground arith)
