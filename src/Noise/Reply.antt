-- ===== src/Noise/Reply.antt =====
-- Both sides of a handshake response compute one transcript.
use vlink.Prelude.{ℕ, ◌^◌, ◌<◌, ◌≡◌, refl, sym, ap, ◌∙◌, List, [], ◌++◌, length, arith}
use mathlib.Core.List.{append_assoc}
use vlink.Outcome.{ok}
use vlink.Bytes.{to_le_bytes}
use vlink.Protocol.{HandshakeResponse, parse, handshake_response}
use vlink.Protocol.Encoding.{IsResponse, response_bytes, parse-response_bytes}
use vlink.Noise.Crypto.{Primitives, local_secret, hash, kdf1, kdf3, aead_encrypt, aead_decrypt}
use vlink.Noise.Cookie.{MacGenerator, generate_mac1, generate_mac2}
use vlink.Noise.Handshake.{
  OutgoingInitiation, IncomingInitiation, OutgoingResponse, IncomingResponse, outgoing_response,
  incoming_response, with_macs,
}
use vlink.Noise.Laws.{IsLawful}
use vlink.Noise.Sealing.{
  unwrap-eq-ok, ok-pair_injective, aead_opens, length-kdf3, length-generate_mac1,
  length-generate_mac2,
}
use vlink.Noise.Agreement.{secret_towards}

-- The two states of one initiation, at its sender and at its receiver.
pub record IsShared (p : Primitives) (out : OutgoingInitiation) (inc : IncomingInitiation)
    : Type 0 where
  pub index_eq : inc.index ≡ out.index
  pub hash_eq : inc.hash ≡ out.hash
  pub chaining_key_eq : inc.chaining_key ≡ out.chaining_key
  pub ephemeral_eq : inc.ephemeral_public_key ≡ p.public_of out.ephemeral_private_key

module _ (p : Primitives) (a psk f : List ℕ) (inc : IncomingInitiation) where
  -- The transcript as the responder computes it.
  abbrev chain : List ℕ
  chain =
      kdf1 p
        (kdf1 p (kdf1 p inc.chaining_key (p.public_of f)) (p.x25519 f inc.ephemeral_public_key))
        (p.x25519 f (p.public_of a))

  abbrev keys : List ℕ × List ℕ × List ℕ
  keys = kdf3 p chain psk

  abbrev sealed_under : List ℕ
  sealed_under = hash p (hash p inc.hash (p.public_of f)) keys.1

  abbrev pub written : ℕ → List ℕ → List ℕ
  written index empty =
      to_le_bytes 4 2
      ++ (to_le_bytes 4 index ++ (to_le_bytes 4 inc.index ++ (p.public_of f ++ empty)))

  pub record IsSent (index : ℕ) (macs : MacGenerator) (now : ℕ) (out : OutgoingResponse)
      (payload empty : List ℕ) : Type 0 where
    sealed : aead_encrypt p keys.2 0 [] sealed_under ≡ ok empty
    state : out ≡ record {
      hash = hash p sealed_under empty;
      chaining_key = keys.0;
      ephemeral_private_key = f;
    }
    pub bytes : payload ≡ with_macs p macs now (written index empty)

  pub outgoing-IsSent :
      (b : List ℕ) (index : ℕ) (macs : MacGenerator) (now : ℕ) (out : OutgoingResponse)
      (payload : List ℕ)
      → outgoing_response p inc index (secret_towards p b a psk) macs f now ≡ ok (out, payload)
      → (empty : List ℕ) × IsSent index macs now out payload empty
  unfolding outgoing_response
  outgoing-IsSent b index macs now out payload h =
      let (x, ex, end) = unwrap-eq-ok (aead_encrypt p keys.2 0 [] sealed_under) _ h in
      let (st, bs) = ok-pair_injective _ out _ payload end in
      (x, record { sealed = ex; state = st; bytes = bs })

  abbrev packet : ℕ → MacGenerator → ℕ → List ℕ → HandshakeResponse
  packet index macs now empty =
      let buf = written index empty in
      let m1 = generate_mac1 p macs buf in
      record {
        sender_index = index;
        receiver_index = inc.index;
        ephemeral_public_key = p.public_of f;
        empty = empty;
        mac1 = m1;
        mac2 = generate_mac2 p macs now (buf ++ m1);
      }

  with_macs-packet :
      (index : ℕ) (macs : MacGenerator) (now : ℕ) (x : List ℕ)
      → with_macs p macs now (written index x) ≡ response_bytes (packet index macs now x)
  unfolding with_macs
  with_macs-packet index macs now x = simp append_assoc

module _ (p : Primitives) (law : IsLawful p) (a b psk f : List ℕ) (index now : ℕ)
    (macs : MacGenerator) (init : OutgoingInitiation) (inc : IncomingInitiation)
    (out : OutgoingResponse) (payload : List ℕ) where
  -- What the initiator knows after the response.
  pub record IsAnswered (packet : HandshakeResponse) (res : IncomingResponse) : Type 0 where
    pub parsed : parse payload ≡ ok (handshake_response packet)
    pub addressed : packet.receiver_index ≡ init.index
    pub opened : incoming_response p init (secret_towards p a b psk) packet ≡ ok res
    pub index_eq : res.index ≡ index
    pub hash_eq : res.hash ≡ out.hash
    pub chaining_key_eq : res.chaining_key ≡ out.chaining_key

  module _ (x : List ℕ) (shared : IsShared p init inc)
      (sent : IsSent p a psk f inc index macs now out payload x) (index_u32 : index < 256 ^ 4)
      (receiver_u32 : init.index < 256 ^ 4) where
    opens :
        (aead_decrypt p (keys p a psk f inc).2 0 x (sealed_under p a psk f inc) ≡ ok [])
        × (length x ≡ 16)
    opens = aead_opens p law _ 0 [] _ (length-kdf3 p law _ _) sent.sealed

    answered : IncomingResponse
    answered = record {
      index = index;
      ephemeral_public_key = p.public_of f;
      hash = hash p (sealed_under p a psk f inc) x;
      chaining_key = (keys p a psk f inc).0;
    }

    incoming-eq :
        incoming_response p init (secret_towards p a b psk) (packet p a psk f inc index macs now x)
        ≡ ok answered
    unfolding incoming_response local_secret answered
    incoming-eq = rw (
      ← shared.chaining_key_eq,
      ← shared.hash_eq,
      law.x25519_comm init.ephemeral_private_key f,
      ← shared.ephemeral_eq,
      law.x25519_comm a f,
      opens.0,
    )

    packet-IsResponse : IsResponse (packet p a psk f inc index macs now x)
    packet-IsResponse = record {
      index_u32 = index_u32;
      receiver_u32 = omega (arith, shared.index_eq);
      ephemeral = law.length-public_of f;
      sealed = opens.1;
      first_mac = length-generate_mac1 p law macs _;
      second_mac = length-generate_mac2 p law macs now _;
    }

    answer : IsAnswered (packet p a psk f inc index macs now x) answered
    unfolding answered
    answer = record {
      parsed =
          ap parse (sent.bytes ∙ with_macs-packet p a psk f inc index macs now x)
          ∙ parse-response_bytes (packet p a psk f inc index macs now x) packet-IsResponse;
      addressed = shared.index_eq;
      opened = incoming-eq;
      index_eq = refl;
      hash_eq = ap (λ (o : OutgoingResponse). o.hash) (sym sent.state);
      chaining_key_eq = ap (λ (o : OutgoingResponse). o.chaining_key) (sym sent.state);
    }

  -- Under lawful crates, where the two sides share an initiation, what `OutgoingResponse::new` gives
  -- with 32-bit indexes reaches the initiator under its own index, opens there, and leaves both
  -- sides with one hash and one chaining key.
  pub response-agrees :
      IsShared p init inc
      → outgoing_response p inc index (secret_towards p b a psk) macs f now ≡ ok (out, payload)
      → index < 256 ^ 4
      → init.index < 256 ^ 4
      → (packet : HandshakeResponse) × (res : IncomingResponse) × IsAnswered packet res
  response-agrees shared h index_u32 receiver_u32 =
      let (x, sent) = outgoing-IsSent p a psk f inc b index macs now out payload h in
      (
        packet p a psk f inc index macs now x,
        answered x shared sent index_u32 receiver_u32,
        answer x shared sent index_u32 receiver_u32,
      )
