-- ===== src/Protocol/Transport.antt =====
-- Transport data: `to_bytes` and `Message::parse` undo one another.
use vlink.Prelude.{
  ℕ, ◌+◌, ◌^◌, ◌≤◌, ◌<◌, ◌≡◌, refl, sym, ap, ap₂, ◌∙◌, List, [], ◌∷◌, ◌++◌, length, get_or, take,
  drop, zero, suc, All, take-append-drop, length-take, length-drop, arith,
}
use vlink.Outcome.{Outcome, ok, ◌>>=◌}
use vlink.Bytes.{
  IsByte, bytes_eq_iff, from_le_bytes, to_le_bytes, from-to_le_bytes, to-from_le_bytes,
}
use vlink.Protocol.{
  Error, header, transport_of_bytes, transport_data, parse, TransportData, Message, to_bytes,
  packet_len,
}

-- The values that the Rust types allow.
pub record IsTransportData (p : TransportData) : Type 0 where
  pub index_u32 : p.receiver_index < 256 ^ 4
  pub counter_u64 : p.counter < 256 ^ 8

abbrev transport_fields : List ℕ → TransportData
transport_fields bs = record {
  receiver_index = from_le_bytes (take 4 (drop 4 bs));
  counter = from_le_bytes (take 8 (drop 8 bs));
  payload = drop 16 bs;
}

transport-eq :
    (bs : List ℕ)
    → 16 ≤ length bs
    → take 4 bs ≡ header 4
    → transport_of_bytes bs ≡ ok (transport_fields bs)
unfolding transport_of_bytes
transport-eq bs h e = ground (arith, bytes_eq_iff (take 4 bs) (header 4))

parse-transport :
    (bs : List ℕ)
    → 4 ≤ length bs
    → get_or bs 0 0 ≡ 4
    → parse bs ≡ (transport_of_bytes bs >>= λ q. ok (transport_data q))
unfolding parse
parse-transport bs h e = ground arith

transport_of_bytes-to_bytes :
    (p : TransportData) → IsTransportData p → transport_of_bytes (to_bytes p) ≡ ok p
unfolding to_bytes
transport_of_bytes-to_bytes p h =
    transport-eq (to_bytes p) (omega arith) refl
    ∙ ap₂ {C = Outcome Error TransportData}
        (λ i c. ok (record { receiver_index = i; counter = c; payload = p.payload }))
        (from-to_le_bytes 4 p.receiver_index h.index_u32)
        (from-to_le_bytes 8 p.counter h.counter_u64)

-- What `to_bytes` writes for transport data with a 32-bit index and a 64-bit counter, `parse` reads
-- back.
pub parse-to_bytes :
    (p : TransportData) → IsTransportData p → parse (to_bytes p) ≡ ok (transport_data p)
unfolding to_bytes
parse-to_bytes p h =
    parse-transport (to_bytes p) (omega arith) refl
    ∙ ap {B = Outcome Error Message} (λ r. r >>= λ q. ok (transport_data q))
        (transport_of_bytes-to_bytes p h)

-- `to_bytes` makes a packet of the length that `packet_len` counts.
pub length-to_bytes : (p : TransportData) → length (to_bytes p) ≡ packet_len p
unfolding to_bytes packet_len
length-to_bytes p = omega arith

All-take : (n : ℕ) (bs : List ℕ) → All IsByte bs → All IsByte (take n bs)
All-take zero bs h = tt
All-take (suc n) [] h = tt
All-take (suc n) (b ∷ bs) h = (h.0, All-take n bs h.1)

All-drop : (n : ℕ) (bs : List ℕ) → All IsByte bs → All IsByte (drop n bs)
All-drop zero bs h = h
All-drop (suc n) [] h = tt
All-drop (suc n) (b ∷ bs) h = All-drop n bs h.1

drop-nil : (n : ℕ) → drop {A = ℕ} n [] ≡ []
drop-nil zero = refl
drop-nil (suc n) = refl

drop-drop : (m n : ℕ) (bs : List ℕ) → drop m (drop n bs) ≡ drop (n + m) bs
drop-drop m zero bs = ap (λ k. drop k bs) (omega arith)
drop-drop m (suc n) [] = drop-nil m ∙ sym (drop-nil (suc n + m))
drop-drop m (suc n) (b ∷ bs) =
    drop-drop m n bs ∙ ap (λ k. drop k (b ∷ bs)) {x = suc (n + m)} (omega arith)

record IsRead (bs : List ℕ) (p : TransportData) : Type 0 where
  sized : 16 ≤ length bs
  start : take 4 bs ≡ header 4
  fields : transport_fields bs ≡ p

transport_of_bytes-IsRead :
    (bs : List ℕ) (p : TransportData) → transport_of_bytes bs ≡ ok p → IsRead bs p
unfolding transport_of_bytes
transport_of_bytes-IsRead bs p h = ground (arith, bytes_eq_iff (take 4 bs) (header 4))

parse-IsRead : (bs : List ℕ) (p : TransportData) → parse bs ≡ ok (transport_data p) → IsRead bs p
unfolding parse
parse-IsRead bs p h = transport_of_bytes-IsRead bs p (ground arith)

-- Four slices make up the packet.
packet_parts :
    (bs : List ℕ) → bs ≡ take 4 bs ++ (take 4 (drop 4 bs) ++ (take 8 (drop 8 bs) ++ drop 16 bs))
packet_parts bs =
    sym (take-append-drop 4 bs)
    ∙ ap (◌++◌ (take 4 bs)) (
        sym (take-append-drop 4 (drop 4 bs))
        ∙ ap (◌++◌ (take 4 (drop 4 bs))) (
            drop-drop 4 4 bs
            ∙ sym (take-append-drop 8 (drop 8 bs))
            ∙ ap (◌++◌ (take 8 (drop 8 bs))) (drop-drop 8 8 bs)))

rewritten :
    (n k : ℕ) (bs : List ℕ)
    → All IsByte bs
    → k + n ≤ length bs
    → to_le_bytes n (from_le_bytes (take n (drop k bs))) ≡ take n (drop k bs)
rewritten n k bs h e =
    let field : List ℕ = take n (drop k bs) in
    let width : length field ≡ n = omega (arith, length-take n (drop k bs), length-drop k bs) in
    ap (λ m. to_le_bytes m (from_le_bytes field)) (sym width)
    ∙ to-from_le_bytes field (All-take n (drop k bs) (All-drop k bs h))

-- What `parse` reads from bytes as transport data, `to_bytes` writes back, byte for byte.
pub to_bytes-parse :
    (bs : List ℕ) (p : TransportData)
    → All IsByte bs
    → parse bs ≡ ok (transport_data p)
    → to_bytes p ≡ bs
unfolding to_bytes
to_bytes-parse bs p h e =
    let r : IsRead bs p = parse-IsRead bs p e in
    ap to_bytes (sym r.fields)
    ∙ ap₂ ◌++◌ (sym r.start) (
        ap₂ ◌++◌ (rewritten 4 4 bs h (omega (arith, r.sized)))
          (ap₂ ◌++◌ (rewritten 8 8 bs h (omega (arith, r.sized))) refl))
    ∙ sym (packet_parts bs)
