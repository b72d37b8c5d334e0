-- ===== src/Protocol/Parse.antt =====
-- When `Message::parse` panics.
use vlink.Prelude.{ℕ, ◌≤◌, ◌<◌, ◌≡◌, ◌≢◌, ◌↔◌, List, [], ◌∷◌, length, get_or, take, arith}
use vlink.Outcome.{panic}
use vlink.Bytes.{bytes_eq_iff}
use vlink.Protocol.{
  header, initiation_of_bytes, response_of_bytes, cookie_of_bytes, transport_of_bytes, parse,
}
use vlink.Protocol.Layout.{initiation-cases, response-cases, cookie-cases}

-- A packet that says that it is transport data, and has no room for the index and the counter.
pub record IsCutShort (bs : List ℕ) : Type 0 where
  pub start : take 4 bs ≡ header 4
  pub short : length bs < 16

transport-panic-IsCutShort : (bs : List ℕ) → transport_of_bytes bs ≡ panic → IsCutShort bs
unfolding transport_of_bytes
transport-panic-IsCutShort bs h = ground (arith, bytes_eq_iff (take 4 bs) (header 4))

pub long_of_start : (bs : List ℕ) → take 4 bs ≡ header 4 → (4 ≤ length bs) × (get_or bs 0 0 ≡ 4)
long_of_start [] h = absurd (cc)
long_of_start (a ∷ []) h = absurd (cc)
long_of_start (a ∷ b ∷ []) h = absurd (cc)
long_of_start (a ∷ b ∷ c ∷ []) h = absurd (cc)
long_of_start (a ∷ b ∷ c ∷ d ∷ bs) h = ground arith

IsCutShort-long : (bs : List ℕ) → IsCutShort bs → (4 ≤ length bs) × (get_or bs 0 0 ≡ 4)
IsCutShort-long bs h = long_of_start bs h.start

IsCutShort-transport-panic : (bs : List ℕ) → IsCutShort bs → transport_of_bytes bs ≡ panic
unfolding transport_of_bytes
IsCutShort-transport-panic bs h =
    ground (arith, bytes_eq_iff (take 4 bs) (header 4), IsCutShort-long bs h)

initiation-ne-panic : (bs : List ℕ) → initiation_of_bytes bs ≢ panic
initiation-ne-panic bs h = ground (arith, initiation-cases bs)

response-ne-panic : (bs : List ℕ) → response_of_bytes bs ≢ panic
response-ne-panic bs h = ground (arith, response-cases bs)

cookie-ne-panic : (bs : List ℕ) → cookie_of_bytes bs ≢ panic
cookie-ne-panic bs h = ground (arith, cookie-cases bs)

parse-panic-IsCutShort : (bs : List ℕ) → parse bs ≡ panic → IsCutShort bs
unfolding parse
parse-panic-IsCutShort bs h = ground (
  arith,
  initiation-ne-panic bs,
  response-ne-panic bs,
  cookie-ne-panic bs,
  transport-panic-IsCutShort bs,
)

IsCutShort-parse-panic : (bs : List ℕ) → IsCutShort bs → parse bs ≡ panic
unfolding parse
IsCutShort-parse-panic bs h = ground (arith, IsCutShort-long bs h, IsCutShort-transport-panic bs h)

-- `Message::parse` panics exactly on transport data of less than 16 bytes.
pub parse-panic_iff : (bs : List ℕ) → (parse bs ≡ panic) ↔ IsCutShort bs
parse-panic_iff bs = (parse-panic-IsCutShort bs, IsCutShort-parse-panic bs)
