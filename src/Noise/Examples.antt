-- ===== src/Noise/Examples.antt =====
-- The handshake theorems at stand-ins for the crates that satisfy the laws: a digest is the first 32
-- bytes, a shared secret is constant, and a sealed text is the text with 16 zeros behind it.
use vlink.Prelude.{
  ℕ, ◌-◌, ◌≡◌, refl, ap, ◌∙◌, true, List, [], ◌∷◌, ◌++◌, length, take, replicate, length-append,
  length-take, length-replicate, take-append_len, some, arith,
}
use vlink.Outcome.{Outcome, ok, err, panic}
use vlink.Protocol.{Error, HandshakeInitiation, HandshakeResponse}
use vlink.Noise.Crypto.{Primitives, PeerStaticSecret, aead_encrypt}
use vlink.Noise.Cookie.{mac_generator}
use vlink.Noise.Handshake.{
  OutgoingInitiation, IncomingInitiation, OutgoingResponse, IncomingResponse, outgoing_initiation,
  outgoing_response,
}
use vlink.Noise.Laws.{IsLawful}
use vlink.Noise.Agreement.{secret_towards, IsAgreed, initiation-agrees}
use vlink.Noise.Reply.{IsAnswered, response-agrees}

abbrev digest : ℕ → List ℕ → List ℕ
digest n bytes = take n (bytes ++ replicate n 0)

length-digest : (n : ℕ) (bytes : List ℕ) → length (digest n bytes) ≡ n
length-digest n bytes =
    length-take n (bytes ++ replicate n 0)
    ∙ omega (arith, length-append bytes (replicate n 0), length-replicate {A = ℕ} n 0)

abbrev pub stand_in : Primitives
stand_in = record {
  blake2s = λ m. digest 32 m;
  blake2s_mac = λ k m. digest 16 (k ++ m);
  hmac_blake2s = λ k m. digest 32 (m ++ k);
  public_of = λ k. digest 32 k;
  x25519 = λ a b. replicate 32 9;
  is_key = λ k. true;
  seal = λ k n m a. some (m ++ replicate 16 0);
  unseal = λ k n c a. some (take (length c - 16) c);
  xseal = λ k n m a. some (m ++ replicate 16 0);
}

unseal_lem : (m : List ℕ) → take (length (m ++ replicate 16 0) - 16) (m ++ replicate 16 0) ≡ m
unseal_lem m =
    take-append_len _ m (replicate 16 0) (omega (arith, length-append m (replicate 16 0)))

sealed_lem :
    (m : List ℕ) {sealed : List ℕ}
    → some (m ++ replicate 16 0) ≡ some sealed
    → sealed ≡ m ++ replicate 16 0
sealed_lem m h = cc

pub stand_in-IsLawful : IsLawful stand_in
stand_in-IsLawful = record {
  length-public_of = λ k. length-digest 32 k;
  length-blake2s_mac = λ k m. length-digest 16 (k ++ m);
  length-hmac_blake2s = λ k m. length-digest 32 (m ++ k);
  x25519_comm = λ a b. refl;
  is_key_sized = λ k h. refl;
  length-seal = λ k n m a h. ap length (sealed_lem m h) ∙ length-append m (replicate 16 0);
  unseal-seal = λ k n m a h.
      ap (λ c. some (take (length c - 16) c)) (sealed_lem m h) ∙ ap some (unseal_lem m);
}

abbrev pub value_or {ℓ} : {A : Type ℓ} → Outcome Error A → A → A
value_or (ok a) d = a
value_or (err e) d = d
value_or panic d = d

abbrev pub alice : List ℕ
alice = 1 ∷ 2 ∷ []

abbrev pub bob : List ℕ
bob = 3 ∷ 4 ∷ []

abbrev pub psk : List ℕ
psk = replicate 32 0

abbrev pub to_bob : PeerStaticSecret
to_bob = secret_towards stand_in alice bob psk

abbrev pub to_alice : PeerStaticSecret
to_alice = secret_towards stand_in bob alice psk

unfoldable pub sent : OutgoingInitiation × List ℕ
sent =
    value_or
      (outgoing_initiation stand_in 7 to_bob (mac_generator stand_in to_bob) (5 ∷ [])
        (replicate 12 1) 0)
      (record { index = 0; hash = []; chaining_key = []; ephemeral_private_key = [] }, [])

sent_lem :
    outgoing_initiation stand_in 7 to_bob
      (mac_generator stand_in to_bob)
      (5 ∷ [])
      (replicate 12 1)
      0
    ≡ ok (sent.0, sent.1)
unfolding sent outgoing_initiation aead_encrypt
sent_lem = refl

-- The theorem for the stand-ins.
initiation-agrees_example :
    (packet : HandshakeInitiation) × (inc : IncomingInitiation) × IsAgreed stand_in
      stand_in-IsLawful alice bob psk
      (5 ∷ [])
      (replicate 12 1)
      7
      0
      (mac_generator stand_in to_bob)
      sent.0
      sent.1
      packet
      inc
initiation-agrees_example =
    initiation-agrees stand_in stand_in-IsLawful alice bob psk (5 ∷ []) (replicate 12 1) 7 0
      (mac_generator stand_in to_bob) sent.0 sent.1 sent_lem (omega arith) refl

abbrev pub received : IncomingInitiation
received = record {
  index = sent.0.index;
  hash = sent.0.hash;
  chaining_key = sent.0.chaining_key;
  timestamp = replicate 12 1;
  ephemeral_public_key = stand_in.public_of sent.0.ephemeral_private_key;
  static_public_key = stand_in.public_of alice;
}

answered : OutgoingResponse × List ℕ
answered =
    value_or
      (outgoing_response stand_in received 8 to_alice (mac_generator stand_in to_alice) (6 ∷ []) 0)
      (record { hash = []; chaining_key = []; ephemeral_private_key = [] }, [])

answered_lem :
    outgoing_response stand_in received 8 to_alice (mac_generator stand_in to_alice) (6 ∷ []) 0
    ≡ ok (answered.0, answered.1)
unfolding answered outgoing_response aead_encrypt
answered_lem = refl

pub index_u32 : sent.0.index ≡ 7
unfolding sent outgoing_initiation aead_encrypt
index_u32 = refl

response-agrees_example :
    (packet : HandshakeResponse) × (res : IncomingResponse) × IsAnswered stand_in stand_in-IsLawful
      alice bob psk
      (6 ∷ [])
      8
      0
      (mac_generator stand_in to_alice)
      sent.0
      received
      answered.0
      answered.1
      packet
      res
response-agrees_example =
    response-agrees stand_in stand_in-IsLawful alice bob psk (6 ∷ []) 8 0
      (mac_generator stand_in to_alice) sent.0 received answered.0 answered.1
      (record { index_eq = refl; hash_eq = refl; chaining_key_eq = refl; ephemeral_eq = refl })
      answered_lem (omega arith) (omega (arith, index_u32))
