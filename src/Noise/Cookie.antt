-- ===== src/Noise/Cookie.antt =====
-- vlink-tun/src/noise/handshake/cookie.rs. Times are nanoseconds of one monotonic clock; the current
-- time and the random bytes are arguments.
use vlink.Prelude.{
  ℕ, ◌-◌, ◌*◌, Bool, List, ◌++◌, length, take, drop, replicate, leb, ltb, Option, none, some,
  if◌then◌else◌,
}
use vlink.Prelude.Text.{codes}
use vlink.Outcome.{Outcome, ok, ◌>>=◌, ◌>>◌, in_range, unwrap}
use vlink.Bytes.{to_le_bytes, bytes_eq, slice}
use vlink.Protocol.{Error}
use vlink.Noise.Crypto.{Primitives, LocalStaticSecret, PeerStaticSecret, hash, mac, xaead_encrypt}

unfoldable pub label_mac1 : List ℕ
label_mac1 = codes "mac1----"

unfoldable pub label_cookie : List ℕ
label_cookie = codes "cookie--"

abbrev pub nanos_per_sec : ℕ
nanos_per_sec = 1000000000

abbrev pub cookie_lifetime : ℕ
cookie_lifetime = 120 * nanos_per_sec

pub record MacGenerator : Type 0 where
  pub peer_mac1_hash : List ℕ
  pub peer_cookie_hash : List ℕ
  pub last_cookie : Option (List ℕ × ℕ)

pub record Cookie : Type 0 where
  pub secret : Option (List ℕ × ℕ)
  pub cookie_hash : List ℕ
  pub mac1_hash : List ℕ

-- `SocketAddr`, with the octets of the address and the port.
pub data SocketAddr : Type 0 where
  v4 v6 : List ℕ → ℕ → SocketAddr

-- `Cookie::encode_dst_addr`
unfoldable pub encode_dst_addr : SocketAddr → List ℕ
encode_dst_addr (v4 octets port) = octets ++ to_le_bytes 2 port
encode_dst_addr (v6 octets port) = octets ++ to_le_bytes 2 port

-- `Cookie::refresh_secret`, with fresh random bytes.
unfoldable pub refresh_secret : Cookie → ℕ → List ℕ → Cookie × List ℕ
refresh_secret cookie now fresh =
    let renewed : Cookie × List ℕ = (record cookie { secret = some (fresh, now) }, fresh) in
    elim cookie.secret [
      | none ↦ renewed
      | some (value, since) ↦ if ltb (now - since) cookie_lifetime then (cookie, value) else renewed
    ]

module _ (p : Primitives) where
  unfoldable pub mac_generator : PeerStaticSecret → MacGenerator
  mac_generator secret = record {
    peer_mac1_hash = hash p label_mac1 secret.public;
    peer_cookie_hash = hash p label_cookie secret.public;
    last_cookie = none;
  }

  unfoldable pub generate_mac1 : MacGenerator → List ℕ → List ℕ
  generate_mac1 macs payload = mac p macs.peer_mac1_hash payload

  unfoldable pub generate_mac2 : MacGenerator → ℕ → List ℕ → List ℕ
  generate_mac2 macs now payload = elim macs.last_cookie [
    | none ↦ replicate 16 0
    | some (_, since) ↦
        if leb cookie_lifetime (now - since)
        then replicate 16 0
        else mac p macs.peer_cookie_hash payload
  ]

  -- `Cookie::new`
  unfoldable pub new_cookie : LocalStaticSecret → Cookie
  new_cookie secret = record {
    secret = none;
    cookie_hash = hash p label_cookie secret.public;
    mac1_hash = hash p label_mac1 secret.public;
  }

  -- `payload.len() - 32` underflows on a shorter payload.
  unfoldable pub validate_mac1 : Cookie → List ℕ → Outcome Error Bool
  validate_mac1 cookie payload = do
    in_range (leb 32 (length payload))
    let msg = take (length payload - 32) payload
    let macs = drop (length payload - 32) payload
    ok (bytes_eq (take 16 macs) (mac p cookie.mac1_hash msg))

  unfoldable pub validate_mac2 : Cookie → List ℕ → Outcome Error Bool
  validate_mac2 cookie payload = do
    in_range (leb 32 (length payload))
    let msg = take (length payload - 32) payload
    let macs = drop (length payload - 32) payload
    ok (bytes_eq (drop 16 macs) (mac p cookie.cookie_hash msg))

  -- `Cookie::generate_cookie_reply`, with the random nonce and the random bytes for the secret.
  unfoldable pub generate_cookie_reply :
      Cookie → List ℕ → SocketAddr → ℕ → List ℕ → List ℕ → Outcome Error (Cookie × List ℕ)
  generate_cookie_reply cookie payload dst now nonce fresh = do
    receiver ← slice 4 8 payload
    in_range (leb 32 (length payload))
    mac1 ← slice (length payload - 32) (length payload - 16) payload
    let renewed = refresh_secret cookie now fresh
    let msg = mac p renewed.1 (encode_dst_addr dst)
    sealed ← unwrap (xaead_encrypt p cookie.cookie_hash nonce msg mac1)
    ok (renewed.0, to_le_bytes 4 3 ++ (receiver ++ (nonce ++ sealed)))
