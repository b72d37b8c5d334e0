-- ===== src/Tunnel/Pairing.antt =====
-- A completed handshake leaves two sessions of which each opens what the other seals.
use vlink.Prelude.{
  ℕ, ◌+◌, ◌%◌, ◌^◌, ◌<◌, ◌≡◌, refl, sym, ap, ◌∙◌, List, [], length, ==_refl, Option, none, some,
}
use vlink.Outcome.{ok_inj, bind-eq-ok, Outcome, ok, ◌>>=◌}
use vlink.Protocol.{Error, TransportData, HandshakeResponse, parse, handshake_response}
use vlink.Noise.Crypto.{Primitives, PeerStaticSecret, kdf2, hmac1, hmac2, nonce_of, or_error}
use vlink.Noise.Handshake.{
  OutgoingInitiation, IncomingInitiation, OutgoingResponse, outgoing_response,
}
use vlink.Noise.Laws.{IsLawful}
use vlink.Noise.Agreement.{secret_towards}
use vlink.Noise.Reply.{IsShared, response-agrees}
use vlink.Sessions.{Session, next_index}
use vlink.Replay.{new}
use vlink.Tunnel.{
  initiation, Handshake, cipher, cipher_encrypt, cipher_decrypt, new_session, next_nonce,
  encrypt_data, decrypt_data, respond, finalize,
}

-- What `s` seals is meant for `t`, under a key that `t` opens with.
pub record IsTowards (s t : Session) : Type 0 where
  pub key_eq : t.receiver_key ≡ s.sender_key
  pub index_eq : t.sender_index ≡ s.receiver_index

pub new_session-eq :
    (p : Primitives)
    → IsLawful p
    → (secret : PeerStaticSecret) (i : ℕ) (k : List ℕ) (j : ℕ) (l : List ℕ) (now : ℕ)
    → length k ≡ 32
    → length l ≡ 32
    → new_session p secret i k j l now
      ≡ ok (record {
        secret = secret;
        sender_index = i;
        sender_nonce = 0;
        sender_key = k;
        receiver_index = j;
        receiver_key = l;
        nonce_filter = new;
        created_at = now;
      })
unfolding new_session cipher
new_session-eq p law secret i k j l now hk hl =
    rw (law.is_key_sized k hk, law.is_key_sized l hl) refl

or_error-eq-ok : (o : Option (List ℕ)) (e : Error) {x : List ℕ} → or_error o e ≡ ok x → o ≡ some x
or_error-eq-ok none e h = cc
or_error-eq-ok (some y) e h = cc

-- What `encrypt_data` of a session seals, `decrypt_data` of the session it is towards opens to the
-- same bytes; the packet carries the nonce of the session, and the nonce goes up by one, modulo 2 ^
-- 64. The crates are taken to be lawful.
pub decrypt-encrypt :
    (p : Primitives)
    → IsLawful p
    → (s t : Session) (text : List ℕ) (packet : TransportData) → IsTowards s t
    → (encrypt_data p s text).1 ≡ ok packet
    → (decrypt_data p t packet ≡ ok text)
      × (packet.counter ≡ s.sender_nonce)
      × ((encrypt_data p s text).0.sender_nonce ≡ (s.sender_nonce + 1) % 2 ^ 64)
unfolding encrypt_data decrypt_data cipher_encrypt cipher_decrypt next_nonce
decrypt-encrypt p law s t text packet towards h =
    let (sealed, made, e) = bind-eq-ok _ _ h in
    let there = or_error-eq-ok _ _ made in
    let opened = law.unseal-seal s.sender_key (nonce_of s.sender_nonce) text [] there in
    let is_packet = ok_inj e in
    (
      rw (sym is_packet, towards.key_eq, towards.index_eq, ==_refl s.receiver_index, opened) refl,
      ap (λ (q : TransportData). q.counter) (sym is_packet),
      refl,
    )

length-kdf2_both :
    (p : Primitives)
    → IsLawful p
    → (key in0 : List ℕ) → (length (kdf2 p key in0).0 ≡ 32) × (length (kdf2 p key in0).1 ≡ 32)
unfolding kdf2 hmac1 hmac2
length-kdf2_both p law key in0 = (law.length-hmac_blake2s _ _, law.length-hmac_blake2s _ _)

-- `Session::new` for the responder's and for the initiator's side of one chaining key.
abbrev responder_session : Primitives → PeerStaticSecret → ℕ → ℕ → List ℕ → ℕ → Session
responder_session p secret mine theirs chaining_key now = record {
  secret = secret;
  sender_index = mine;
  sender_nonce = 0;
  sender_key = (kdf2 p chaining_key []).1;
  receiver_index = theirs;
  receiver_key = (kdf2 p chaining_key []).0;
  nonce_filter = new;
  created_at = now;
}

abbrev initiator_session : Primitives → PeerStaticSecret → ℕ → ℕ → List ℕ → ℕ → Session
initiator_session p secret mine theirs chaining_key now = record {
  secret = secret;
  sender_index = mine;
  sender_nonce = 0;
  sender_key = (kdf2 p chaining_key []).0;
  receiver_index = theirs;
  receiver_key = (kdf2 p chaining_key []).1;
  nonce_filter = new;
  created_at = now;
}

-- Inversion of `respond`.
pub respond-eq-ok :
    (p : Primitives) (law : IsLawful p) (r r' : Handshake) (inc : IncomingInitiation) (f : List ℕ)
    (now : ℕ) (s : Session) (payload : List ℕ)
    → respond p r inc f now ≡ ok (r', s, payload)
    → (out : OutgoingResponse) × (outgoing_response p inc r.session_index.index r.secret r.macs f
          now
        ≡ ok (out, payload))
      × (s ≡ responder_session p r.secret r.session_index.index inc.index out.chaining_key now)
unfolding respond next_index
respond-eq-ok p law r r' inc f now s payload h =
    let m : Outcome Error (OutgoingResponse × List ℕ) =
      outgoing_response p inc r.session_index.index r.secret r.macs f now in
    let made : OutgoingResponse × List ℕ → Outcome Error Session = λ sent.
      new_session p r.secret r.session_index.index (kdf2 p sent.0.chaining_key []).1 inc.index
        (kdf2 p sent.0.chaining_key []).0 now in
    let k : OutgoingResponse × List ℕ → Outcome Error (Handshake × Session × List ℕ) = λ sent.
      made sent >>= λ sess.
      ok (record r { session_index = (next_index r.session_index).1 }, sess, sent.1) in
    let (sent, sealed, rest) = bind-eq-ok m k h in
    let (sess, fresh, e) = bind-eq-ok (made sent) _ rest in
    let sized = length-kdf2_both p law sent.0.chaining_key [] in
    let is_sess = ok_inj (sym fresh ∙ new_session-eq p law _ _ _ _ _ _ sized.1 sized.0) in
    let parts = ok_inj e in
    (
      sent.0,
      sealed
          ∙ ap {B = Outcome Error (OutgoingResponse × List ℕ)} (λ w. ok (sent.0, w))
              (ap (λ x. x.2) parts),
      sym (ap (λ x. x.1) parts) ∙ is_sess,
    )

module _ (p : Primitives) (law : IsLawful p) (a b psk f : List ℕ) (now later : ℕ)
    (init : OutgoingInitiation) (inc : IncomingInitiation) (h : Handshake) (r r' : Handshake)
    (s : Session) (payload : List ℕ) where
  -- The session of the initiator, where its `finalize` reads the response.
  pub record IsCompleted (packet : HandshakeResponse) (t : Session) : Type 0 where
    pub parsed : parse payload ≡ ok (handshake_response packet)
    pub addressed : packet.receiver_index ≡ init.index
    pub finalized : finalize p h packet later ≡ ok t
    pub own_index : t.sender_index ≡ init.index
    pub sends : IsTowards t s
    pub receives : IsTowards s t

  -- Where the two sides share an initiation, hold each other's static keys and one pre-shared key,
  -- and have 32-bit indexes, and `respond` gives a session and a response: the initiator parses the
  -- response, and `finalize` gives a session; either one sends under the key and the index that the
  -- other one receives with. The crates are taken to be lawful.
  pub finalize-respond :
      IsShared p init inc
      → h.state ≡ initiation init
      → h.secret ≡ secret_towards p a b psk
      → r.secret ≡ secret_towards p b a psk
      → respond p r inc f now ≡ ok (r', s, payload)
      → r.session_index.index < 256 ^ 4
      → init.index < 256 ^ 4
      → (packet : HandshakeResponse) × (t : Session) × IsCompleted packet t
  unfolding respond finalize next_index
  finalize-respond shared waiting mine theirs responded index_u32 init_u32 =
      let (out, sent, is_s) = respond-eq-ok p law r r' inc f now s payload responded in
      let (packet, res, seen) =
        response-agrees p law a b psk f r.session_index.index now r.macs init inc out payload shared
          (ap (λ secret. outgoing_response p inc r.session_index.index secret r.macs f now)
              (sym theirs)
            ∙ sent)
          index_u32 init_u32 in
      let t = initiator_session p h.secret init.index res.index res.chaining_key later in
      let sized = length-kdf2_both p law res.chaining_key [] in
      (
        packet,
        t,
        record {
          parsed = seen.parsed;
          addressed = seen.addressed;
          own_index = refl;
          finalized =
              rw (waiting, finalize, mine, seen.opened)
                (new_session-eq p law _ _ _ _ _ _ sized.0 sized.1);
          sends =
              rw (is_s, seen.chaining_key_eq, seen.index_eq)
                (record { key_eq = refl; index_eq = refl });
          receives =
              rw (is_s, seen.chaining_key_eq)
                (record { key_eq = refl; index_eq = sym shared.index_eq });
        },
      )
