-- ===== src/Noise/Handshake.antt =====
-- The two handshake messages, vlink-tun/src/noise/handshake/initiation.rs and response.rs. The
-- ephemeral private key, the timestamp and the current time are arguments.
use vlink.Prelude.{ℕ, List, [], ◌++◌, length, ◌==◌, if◌then◌else◌}
use vlink.Prelude.Text.{codes}
use vlink.Outcome.{Outcome, ok, panic, ◌>>=◌, ◌>>◌, require, unwrap}
use vlink.Bytes.{to_le_bytes}
use vlink.Protocol.{
  Error, decryption, HandshakeInitiation, HandshakeResponse, message_type_handshake_initiation,
  message_type_handshake_response,
}
use vlink.Noise.Crypto.{
  Primitives, LocalStaticSecret, PeerStaticSecret, hash, kdf1, kdf2, kdf3, aead_encrypt,
  aead_decrypt,
}
use vlink.Noise.Cookie.{MacGenerator, generate_mac1, generate_mac2}

pub record OutgoingInitiation : Type 0 where
  pub index : ℕ
  pub hash : List ℕ
  pub chaining_key : List ℕ
  pub ephemeral_private_key : List ℕ

pub record IncomingInitiation : Type 0 where
  pub index : ℕ
  pub hash : List ℕ
  pub chaining_key : List ℕ
  pub timestamp : List ℕ
  pub ephemeral_public_key : List ℕ
  pub static_public_key : List ℕ

pub record OutgoingResponse : Type 0 where
  pub hash : List ℕ
  pub chaining_key : List ℕ
  pub ephemeral_private_key : List ℕ

pub record IncomingResponse : Type 0 where
  pub index : ℕ
  pub ephemeral_public_key : List ℕ
  pub hash : List ℕ
  pub chaining_key : List ℕ

-- `try_into().unwrap()` into an array of `n` bytes.
abbrev pub sized : ℕ → List ℕ → Outcome Error (List ℕ)
sized n bytes = if length bytes == n then ok bytes else panic

unfoldable pub construction : List ℕ
construction = codes "Noise_IKpsk2_25519_ChaChaPoly_BLAKE2s"

unfoldable pub identifier : List ℕ
identifier = codes "WireGuard v1 zx2c4 Jason@zx2c4.com"

module _ (p : Primitives) where
  -- `mac1` is over the packet so far, and `mac2` over the packet with `mac1`.
  unfoldable pub with_macs : MacGenerator → ℕ → List ℕ → List ℕ
  with_macs macs now buf =
      let signed = buf ++ generate_mac1 p macs buf in signed ++ generate_mac2 p macs now signed

  -- The hash that both sides start from, at the responder's public key.
  unfoldable pub initial_hash : List ℕ → List ℕ
  initial_hash responder = hash p (hash p (hash p construction []) identifier) responder

  -- `OutgoingInitiation::new`
  unfoldable pub outgoing_initiation :
      ℕ
      → PeerStaticSecret
      → MacGenerator
      → List ℕ
      → List ℕ
      → ℕ
      → Outcome Error (OutgoingInitiation × List ℕ)
  outgoing_initiation sender_index secret macs ephemeral stamp now = do
    let ephemeral_pub = p.public_of ephemeral
    let c0 = hash p construction []
    let h0 = initial_hash secret.public
    let c1 = kdf1 p c0 ephemeral_pub
    let h1 = hash p h0 ephemeral_pub
    let ck1 = kdf2 p c1 (p.x25519 ephemeral secret.public)
    static_key ← unwrap (aead_encrypt p ck1.1 0 secret.local.public h1)
    let h2 = hash p h1 static_key
    let ck2 = kdf2 p ck1.0 (p.x25519 secret.local.private secret.public)
    timestamp ← unwrap (aead_encrypt p ck2.1 0 stamp h2)
    let h3 = hash p h2 timestamp
    let buf =
        to_le_bytes 4 message_type_handshake_initiation
        ++ (to_le_bytes 4 sender_index ++ (ephemeral_pub ++ (static_key ++ timestamp)))
    ok (
      record {
        index = sender_index;
        hash = h3;
        chaining_key = ck2.0;
        ephemeral_private_key = ephemeral;
      },
      with_macs macs now buf,
    )

  -- `IncomingInitiation::parse`
  unfoldable pub incoming_initiation :
      LocalStaticSecret → HandshakeInitiation → Outcome Error IncomingInitiation
  incoming_initiation secret packet = do
    let c0 = hash p construction []
    let h0 = initial_hash secret.public
    let c1 = kdf1 p c0 packet.ephemeral_public_key
    let h1 = hash p h0 packet.ephemeral_public_key
    let ck1 = kdf2 p c1 (p.x25519 secret.private packet.ephemeral_public_key)
    opened_key ← aead_decrypt p ck1.1 0 packet.static_public_key h1
    static_key ← sized 32 opened_key
    let h2 = hash p h1 packet.static_public_key
    let ck2 = kdf2 p ck1.0 (p.x25519 secret.private static_key)
    opened_stamp ← aead_decrypt p ck2.1 0 packet.timestamp h2
    stamp ← sized 12 opened_stamp
    let h3 = hash p h2 packet.timestamp
    ok (record {
      index = packet.sender_index;
      hash = h3;
      chaining_key = ck2.0;
      timestamp = stamp;
      ephemeral_public_key = packet.ephemeral_public_key;
      static_public_key = static_key;
    })

  -- `OutgoingResponse::new`
  unfoldable pub outgoing_response :
      IncomingInitiation
      → ℕ
      → PeerStaticSecret
      → MacGenerator
      → List ℕ
      → ℕ
      → Outcome Error (OutgoingResponse × List ℕ)
  outgoing_response initiation local_index secret macs ephemeral now = do
    let ephemeral_pub = p.public_of ephemeral
    let c1 = kdf1 p initiation.chaining_key ephemeral_pub
    let h1 = hash p initiation.hash ephemeral_pub
    let c2 = kdf1 p c1 (p.x25519 ephemeral initiation.ephemeral_public_key)
    let c3 = kdf1 p c2 (p.x25519 ephemeral secret.public)
    let ctk = kdf3 p c3 secret.psk
    let h2 = hash p h1 ctk.1
    empty ← unwrap (aead_encrypt p ctk.2 0 [] h2)
    let h3 = hash p h2 empty
    let buf =
        to_le_bytes 4 message_type_handshake_response
        ++ (to_le_bytes 4 local_index
            ++ (to_le_bytes 4 initiation.index ++ (ephemeral_pub ++ empty)))
    ok (
      record { hash = h3; chaining_key = ctk.0; ephemeral_private_key = ephemeral },
      with_macs macs now buf,
    )

  -- `IncomingResponse::parse`
  unfoldable pub incoming_response :
      OutgoingInitiation → PeerStaticSecret → HandshakeResponse → Outcome Error IncomingResponse
  incoming_response initiation secret packet = do
    let c1 = kdf1 p initiation.chaining_key packet.ephemeral_public_key
    let h1 = hash p initiation.hash packet.ephemeral_public_key
    let c2 = kdf1 p c1 (p.x25519 initiation.ephemeral_private_key packet.ephemeral_public_key)
    let c3 = kdf1 p c2 (p.x25519 secret.local.private packet.ephemeral_public_key)
    let ctk = kdf3 p c3 secret.psk
    let h2 = hash p h1 ctk.1
    empty ← aead_decrypt p ctk.2 0 packet.empty h2
    require (length empty == 0) decryption
    let h3 = hash p h2 packet.empty
    ok (record {
      index = packet.sender_index;
      ephemeral_public_key = packet.ephemeral_public_key;
      hash = h3;
      chaining_key = ctk.0;
    })
