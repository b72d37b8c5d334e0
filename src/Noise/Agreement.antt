-- ===== src/Noise/Agreement.antt =====
-- Both sides of a handshake initiation compute one transcript.
use vlink.Prelude.{ℕ, ◌+◌, ◌^◌, ◌<◌, ◌≡◌, refl, sym, ap, ◌∙◌, List, [], ◌++◌, length, arith}
use mathlib.Core.List.{append_assoc}
use vlink.Outcome.{ok}
use vlink.Bytes.{to_le_bytes}
use vlink.Protocol.{HandshakeInitiation, parse, handshake_initiation}
use vlink.Protocol.Encoding.{IsInitiation, initiation_bytes, parse-initiation_bytes}
use vlink.Noise.Crypto.{
  Primitives, PeerStaticSecret, local_secret, hash, kdf1, kdf2, aead_encrypt, aead_decrypt,
}
use vlink.Noise.Cookie.{MacGenerator, generate_mac1, generate_mac2}
use vlink.Noise.Handshake.{
  OutgoingInitiation, IncomingInitiation, outgoing_initiation, incoming_initiation, initial_hash,
  construction, with_macs,
}
use vlink.Noise.Laws.{IsLawful}
use vlink.Noise.Sealing.{
  unwrap-eq-ok, ok-pair_injective, aead_opens, length-kdf2, length-generate_mac1,
  length-generate_mac2,
}

-- The initiator's secret towards the holder of the private key `b`.
abbrev pub secret_towards : Primitives → List ℕ → List ℕ → List ℕ → PeerStaticSecret
secret_towards p a b psk = record { local = local_secret p a; public = p.public_of b; psk = psk }

module _ (p : Primitives) (a b e : List ℕ) where
  -- The transcript as the initiator computes it.
  abbrev ck1 : List ℕ × List ℕ
  ck1 = kdf2 p (kdf1 p (hash p construction []) (p.public_of e)) (p.x25519 e (p.public_of b))

  abbrev h1 : List ℕ
  h1 = hash p (initial_hash p (p.public_of b)) (p.public_of e)

  abbrev ck2 : List ℕ × List ℕ
  ck2 = kdf2 p ck1.0 (p.x25519 a (p.public_of b))

  abbrev pub written : ℕ → List ℕ → List ℕ → List ℕ
  written index static_key timestamp =
      to_le_bytes 4 1 ++ (to_le_bytes 4 index ++ (p.public_of e ++ (static_key ++ timestamp)))

  -- What a completed `OutgoingInitiation::new` has done.
  pub record IsSent (index : ℕ) (macs : MacGenerator) (stamp : List ℕ) (now : ℕ)
      (out : OutgoingInitiation) (payload static_key timestamp : List ℕ) : Type 0 where
    sealed_key : aead_encrypt p ck1.1 0 (p.public_of a) h1 ≡ ok static_key
    sealed_stamp : aead_encrypt p ck2.1 0 stamp (hash p h1 static_key) ≡ ok timestamp
    pub state : out ≡ record {
      index = index;
      hash = hash p (hash p h1 static_key) timestamp;
      chaining_key = ck2.0;
      ephemeral_private_key = e;
    }
    pub bytes : payload ≡ with_macs p macs now (written index static_key timestamp)

  pub outgoing-IsSent :
      (index : ℕ) (macs : MacGenerator) (stamp : List ℕ) (now : ℕ) (psk : List ℕ)
      (out : OutgoingInitiation) (payload : List ℕ)
      → outgoing_initiation p index (secret_towards p a b psk) macs e stamp now ≡ ok (out, payload)
      → (s : List ℕ) × (t : List ℕ) × IsSent index macs stamp now out payload s t
  unfolding outgoing_initiation local_secret
  outgoing-IsSent index macs stamp now psk out payload h =
      let (s, es, rest) = unwrap-eq-ok (aead_encrypt p ck1.1 0 (p.public_of a) h1) _ h in
      let (t, et, end) = unwrap-eq-ok (aead_encrypt p ck2.1 0 stamp (hash p h1 s)) _ rest in
      let (st, bs) = ok-pair_injective _ out _ payload end in
      (s, t, record { sealed_key = es; sealed_stamp = et; state = st; bytes = bs })

  -- The packet that the payload holds.
  abbrev packet : ℕ → MacGenerator → ℕ → List ℕ → List ℕ → HandshakeInitiation
  packet index macs now static_key timestamp =
      let buf = written index static_key timestamp in
      let m1 = generate_mac1 p macs buf in
      record {
        sender_index = index;
        ephemeral_public_key = p.public_of e;
        static_public_key = static_key;
        timestamp = timestamp;
        mac1 = m1;
        mac2 = generate_mac2 p macs now (buf ++ m1);
      }

  with_macs-packet :
      (index : ℕ) (macs : MacGenerator) (now : ℕ) (s t : List ℕ)
      → with_macs p macs now (written index s t) ≡ initiation_bytes (packet index macs now s t)
  unfolding with_macs
  with_macs-packet index macs now s t = simp append_assoc

module _ (p : Primitives) (law : IsLawful p) (a b psk e stamp : List ℕ) (index now : ℕ)
    (macs : MacGenerator) (out : OutgoingInitiation) (payload : List ℕ) where
  -- What the responder knows after the initiation.
  pub record IsAgreed (packet : HandshakeInitiation) (inc : IncomingInitiation) : Type 0 where
    pub parsed : parse payload ≡ ok (handshake_initiation packet)
    pub opened : incoming_initiation p (local_secret p b) packet ≡ ok inc
    pub index_eq : inc.index ≡ out.index
    pub hash_eq : inc.hash ≡ out.hash
    pub chaining_key_eq : inc.chaining_key ≡ out.chaining_key
    pub timestamp_eq : inc.timestamp ≡ stamp
    pub ephemeral_eq : inc.ephemeral_public_key ≡ p.public_of out.ephemeral_private_key
    pub static_eq : inc.static_public_key ≡ p.public_of a

  module _ (s t : List ℕ) (sent : IsSent p a b e index macs stamp now out payload s t)
      (index_u32 : index < 256 ^ 4) (stamp_sized : length stamp ≡ 12) where
    key_opens :
        (aead_decrypt p (ck1 p a b e).1 0 s (h1 p a b e) ≡ ok (p.public_of a))
        × (length s ≡ length (p.public_of a) + 16)
    key_opens = aead_opens p law _ 0 _ _ (length-kdf2 p law _ _) sent.sealed_key

    stamp_opens :
        (aead_decrypt p (ck2 p a b e).1 0 t (hash p (h1 p a b e) s) ≡ ok stamp)
        × (length t ≡ length stamp + 16)
    stamp_opens = aead_opens p law _ 0 _ _ (length-kdf2 p law _ _) sent.sealed_stamp

    agreed : IncomingInitiation
    agreed = record {
      index = index;
      hash = hash p (hash p (h1 p a b e) s) t;
      chaining_key = (ck2 p a b e).0;
      timestamp = stamp;
      ephemeral_public_key = p.public_of e;
      static_public_key = p.public_of a;
    }

    incoming-eq :
        incoming_initiation p (local_secret p b) (packet p a b e index macs now s t) ≡ ok agreed
    unfolding incoming_initiation local_secret agreed
    incoming-eq = rw (
      law.x25519_comm b e,
      key_opens.0,
      law.length-public_of a,
      law.x25519_comm b a,
      stamp_opens.0,
      stamp_sized,
    )

    packet-IsInitiation : IsInitiation (packet p a b e index macs now s t)
    packet-IsInitiation = record {
      index_u32 = index_u32;
      ephemeral = law.length-public_of e;
      static_key = omega (arith, key_opens.1, law.length-public_of a);
      stamp = omega (arith, stamp_opens.1);
      first_mac = length-generate_mac1 p law macs _;
      second_mac = length-generate_mac2 p law macs now _;
    }

    agree : IsAgreed (packet p a b e index macs now s t) agreed
    unfolding agreed
    agree = record {
      parsed =
          ap parse (sent.bytes ∙ with_macs-packet p a b e index macs now s t)
          ∙ parse-initiation_bytes (packet p a b e index macs now s t) packet-IsInitiation;
      opened = incoming-eq;
      index_eq = ap (λ (o : OutgoingInitiation). o.index) (sym sent.state);
      hash_eq = ap (λ (o : OutgoingInitiation). o.hash) (sym sent.state);
      chaining_key_eq = ap (λ (o : OutgoingInitiation). o.chaining_key) (sym sent.state);
      timestamp_eq = refl;
      ephemeral_eq =
          ap (λ (o : OutgoingInitiation). p.public_of o.ephemeral_private_key) (sym sent.state);
      static_eq = refl;
    }

  -- Under lawful crates, whatever `OutgoingInitiation::new` gives with a 32-bit index and a
  -- timestamp of 12 bytes, the holder of the private key parses and opens, and then has the
  -- initiator's index, hash, chaining key, timestamp and public keys.
  pub initiation-agrees :
      outgoing_initiation p index (secret_towards p a b psk) macs e stamp now ≡ ok (out, payload)
      → index < 256 ^ 4
      → length stamp ≡ 12
      → (packet : HandshakeInitiation) × (inc : IncomingInitiation) × IsAgreed packet inc
  initiation-agrees h index_u32 stamp_sized =
      let (s, t, sent) = outgoing-IsSent p a b e index macs stamp now psk out payload h in
      (
        packet p a b e index macs now s t,
        agreed s t sent index_u32 stamp_sized,
        agree s t sent index_u32 stamp_sized,
      )
