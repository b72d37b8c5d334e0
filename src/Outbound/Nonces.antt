-- ===== src/Outbound/Nonces.antt =====
-- The nonces and the counters of the outbound loop of vlink-tun/src/device/peer/handler.rs.
use vlink.Outbound.Sealed.{IsSealed, IsSealing}
use vlink.Prelude.{
  ℕ, ◌+◌, ◌%◌, ◌^◌, ◌≤◌, ◌<◌, List, [], ◌∷◌, ◌++◌, length, take, drop, none, some, ◌≡◌, refl, sym,
  ap, ◌∙◌, ◌⊎◌, inl, inr, Option, Option-cases, arith,
}
use vlink.Outcome.{ok_inj, bind-eq-ok, ok}
use vlink.Bytes.{from_le_bytes, from-to_le_bytes}
use vlink.Protocol.{TransportData, to_bytes}
use vlink.Noise.Crypto.{Primitives, nonce_of}
use vlink.Sessions.{Session}
use vlink.Tunnel.{encrypt_data, cipher_encrypt, next_nonce}
use vlink.Peer.{
  Peer, Effect, sent, delivered, staged, handshake_complete, session_failed, no_endpoint,
  send_outbound, count_sent,
}
use vlink.Outbound.{tick_outbound, send_all}

-- The counter that stands in a transport packet.
abbrev pub counter_of : List ℕ → ℕ
counter_of bytes = from_le_bytes (take 8 (drop 8 bytes))

-- The counters of the packets that were sent.
abbrev pub counters : List Effect → List ℕ
counters [] = []
counters (sent endpoint bytes ∷ es) = counter_of bytes ∷ counters es
counters (delivered bytes ∷ es) = counters es
counters (staged bytes ∷ es) = counters es
counters (handshake_complete key ∷ es) = counters es
counters (session_failed key ∷ es) = counters es
counters (no_endpoint key ∷ es) = counters es

-- Every number is larger than the one before it, and the first is at least `low`.
abbrev pub IsRising : ℕ → List ℕ → Type 0
IsRising low [] = Unit {0}
IsRising low (c ∷ cs) = (low ≤ c) × IsRising (c + 1) cs

IsRising-weaken : (low high : ℕ) (cs : List ℕ) → low ≤ high → IsRising high cs → IsRising low cs
IsRising-weaken low high [] le h = tt
IsRising-weaken low high (c ∷ cs) le h = (omega (arith, le, h.0), h.1)

counter_of-to_bytes :
    (q : TransportData) → q.counter < 256 ^ 8 → counter_of (to_bytes q) ≡ q.counter
unfolding to_bytes
counter_of-to_bytes q small = from-to_le_bytes 8 q.counter small

counters-append : (es fs : List Effect) → counters (es ++ fs) ≡ counters es ++ counters fs
counters-append [] fs = refl
counters-append (sent endpoint bytes ∷ es) fs =
    ap (λ cs. counter_of bytes ∷ cs) (counters-append es fs)
counters-append (delivered bytes ∷ es) fs = counters-append es fs
counters-append (staged bytes ∷ es) fs = counters-append es fs
counters-append (handshake_complete key ∷ es) fs = counters-append es fs
counters-append (session_failed key ∷ es) fs = counters-append es fs
counters-append (no_endpoint key ∷ es) fs = counters-append es fs

-- A peer whose current session is `s`.
abbrev with_current : Peer → Session → Peer
with_current peer s = record peer { sessions = record peer.sessions { current = some s } }

abbrev next_session : Session → Session
next_session s = record s { sender_nonce = (s.sender_nonce + 1) % 2 ^ 64 }

module _ (p : Primitives) where
  -- One round: the nonce goes up, and at most one packet leaves, with the old nonce.
  record IsRound (peer : Peer) (s : Session) (bytes : List ℕ) (q : Peer) (es : List Effect)
      : Type 0 where
    after : Peer
    endpoint_same : after.endpoint ≡ peer.endpoint
    key_same : after.pub_key ≡ peer.pub_key
    sealed : IsSealed p peer.endpoint peer.pub_key s s.sender_nonce bytes es
    moved : q ≡ with_current after (next_session s)
    used : (counters es ≡ []) ⊎ (counters es ≡ s.sender_nonce ∷ [])

  send-counters :
      (peer : Peer) (q : TransportData)
      → q.counter < 256 ^ 8
      → (counters (send_outbound peer (to_bytes q)) ≡ [])
        ⊎ (counters (send_outbound peer (to_bytes q)) ≡ q.counter ∷ [])
  unfolding send_outbound
  send-counters peer q small = elim (Option-cases peer.endpoint) [
    | inl e ↦ inl (rw (e, send_outbound) refl)
    | inr (n, e) ↦ inr (rw (e, send_outbound) (ap (λ c. c ∷ []) (counter_of-to_bytes q small)))
  ]

  abbrev packet : Session → List ℕ → TransportData
  packet s sealed = record {
    receiver_index = s.receiver_index;
    counter = s.sender_nonce;
    payload = sealed;
  }

  -- `tick_outbound` where the cipher fails, and where it seals.
  tick_outbound-fails :
      (peer : Peer) (s : Session) (bytes : List ℕ) (now : ℕ)
      → p.seal s.sender_key (nonce_of s.sender_nonce) bytes [] ≡ none
      → tick_outbound p (with_current peer s) bytes now
        ≡ ok (with_current peer (next_session s), [])
  unfolding tick_outbound encrypt_data cipher_encrypt next_nonce
  tick_outbound-fails peer s bytes now e = rw (e, tick_outbound) refl

  tick_outbound-seals :
      (peer : Peer) (s : Session) (bytes : List ℕ) (now : ℕ) (sealed : List ℕ)
      → p.seal s.sender_key (nonce_of s.sender_nonce) bytes [] ≡ some sealed
      → tick_outbound p (with_current peer s) bytes now
        ≡ ok (
          count_sent now (length (to_bytes (packet s sealed))) (with_current peer (next_session s)),
          send_outbound (with_current peer (next_session s)) (to_bytes (packet s sealed)),
        )
  unfolding tick_outbound encrypt_data cipher_encrypt next_nonce
  tick_outbound-seals peer s bytes now sealed e = rw (e, tick_outbound) refl

  round :
      (peer q : Peer) (s : Session) (bytes : List ℕ) (now : ℕ) (es : List Effect)
      → s.sender_nonce < 256 ^ 8
      → tick_outbound p (with_current peer s) bytes now ≡ ok (q, es)
      → IsRound peer s bytes q es
  unfolding count_sent send_outbound
  round peer q s bytes now es small h =
      elim (Option-cases (p.seal s.sender_key (nonce_of s.sender_nonce) bytes [])) [
        | inl e ↦
            let parts = ok_inj (sym h ∙ tick_outbound-fails peer s bytes now e) in
            record {
              after = peer;
              endpoint_same = refl;
              key_same = refl;
              sealed = inl (e, ap (λ r. r.1) parts);
              moved = ap (λ r. r.0) parts;
              used = inl (ap (λ r. counters r.1) parts);
            }
        | inr (sealed, e) ↦
            let parts = ok_inj (sym h ∙ tick_outbound-seals peer s bytes now sealed e) in
            let es_eq = ap (λ r. counters r.1) parts in
            record {
              after = count_sent now (length (to_bytes (packet s sealed))) peer;
              endpoint_same = refl;
              key_same = refl;
              sealed = inr (sealed, e, ap (λ r. r.1) parts);
              moved = ap (λ r. r.0) parts;
              used =
                  elim (send-counters (with_current peer (next_session s)) (packet s sealed)
                    small) [
                      | inl none_left ↦ inl (es_eq ∙ none_left)
                      | inr one ↦ inr (es_eq ∙ one)
                    ];
            }
      ]

  IsRising-round :
      (n : ℕ) (es fs : List Effect)
      → (counters es ≡ []) ⊎ (counters es ≡ n ∷ [])
      → IsRising (n + 1) (counters fs)
      → IsRising n (counters (es ++ fs))
  IsRising-round n es fs (inl e) h =
      rw (counters-append es fs, e) (IsRising-weaken n (n + 1) (counters fs) (omega arith) h)
  IsRising-round n es fs (inr e) h = rw (counters-append es fs, e) (omega arith, h)

  rising :
      (peer q : Peer) (s : Session) (rounds : List (List ℕ × ℕ)) (es : List Effect)
      → s.sender_nonce + length rounds < 2 ^ 64
      → send_all p (with_current peer s) rounds ≡ ok (q, es)
      → IsRising s.sender_nonce (counters es)
  unfolding send_all
  rising peer q s [] es few h = rw (sym (ap (λ r. counters r.1) (ok_inj h))) tt
  rising peer q s ((bytes, now) ∷ rounds) es few h =
      let (first, e1, rest) = bind-eq-ok (tick_outbound p (with_current peer s) bytes now) _ h in
      let (others, e2, done) = bind-eq-ok (send_all p first.0 rounds) _ rest in
      let r = round peer first.0 s bytes now first.1 (omega (arith, few)) e1 in
      let e3 = ap (λ o. send_all p o rounds) (sym r.moved) ∙ e2 in
      let later =
        rising r.after others.0 (next_session s) rounds others.1 (omega (arith, few)) e3 in
      rw (sym (ap (λ x. x.1) (ok_inj done))) (
        IsRising-round s.sender_nonce first.1 others.1 r.used (
          IsRising-weaken (s.sender_nonce + 1) ((s.sender_nonce + 1) % 2 ^ 64) (counters others.1)
            (omega (arith, few)) later))

  sealing :
      (to : Option ℕ) (key : List ℕ) (peer q : Peer) (s : Session) (n : ℕ)
      (rounds : List (List ℕ × ℕ)) (es : List Effect)
      → peer.endpoint ≡ to
      → peer.pub_key ≡ key
      → s.sender_nonce ≡ n
      → n + length rounds < 2 ^ 64
      → send_all p (with_current peer s) rounds ≡ ok (q, es)
      → IsSealing p to key s n rounds es
  unfolding send_all
  sealing to key peer q s n [] es same named at few h = sym (ap (λ r. r.1) (ok_inj h))
  sealing to key peer q s n ((bytes, now) ∷ rounds) es same named at few h =
      let (first, e1, rest) = bind-eq-ok (tick_outbound p (with_current peer s) bytes now) _ h in
      let (others, e2, done) = bind-eq-ok (send_all p first.0 rounds) _ rest in
      let r = round peer first.0 s bytes now first.1 (omega (arith, few, at)) e1 in
      let e3 = ap (λ o. send_all p o rounds) (sym r.moved) ∙ e2 in
      let later =
        sealing to key r.after others.0 (next_session s) (n + 1) rounds others.1
          (r.endpoint_same ∙ same) (r.key_same ∙ named) (omega (arith, few, at))
          (omega (arith, few)) e3 in
      let one : IsSealed p to key s n bytes first.1 = rw (sym same, sym named, sym at) r.sealed in
      (first.1, others.1, sym (ap (λ x. x.1) (ok_inj done)), one, later)

  -- Where a peer has a current session whose nonce stays below 2 ^ 64 over the rounds of the
  -- outbound loop, and no round panics: the counters of the packets that leave rise strictly from
  -- the nonce of the session; and the effects are, one round behind the other, the round's own data,
  -- sealed under the key of the session and under a nonce that is the counter of its packet and is
  -- one more than that of the round before, the first being the session's, sent to the endpoint of
  -- the peer, or a notice that there is none; a round whose data the cipher refuses has no effect.
  pub send_all-IsRising :
      (peer q : Peer) (s : Session) (rounds : List (List ℕ × ℕ)) (es : List Effect)
      → peer.sessions.current ≡ some s
      → s.sender_nonce + length rounds < 2 ^ 64
      → send_all p peer rounds ≡ ok (q, es)
      → IsRising s.sender_nonce (counters es)
        × IsSealing p peer.endpoint peer.pub_key s s.sender_nonce rounds es
  send_all-IsRising peer q s rounds es current few h =
      let run =
        ap
          (λ c. send_all p (record peer { sessions = record peer.sessions { current = c } }) rounds)
          (sym current)
        ∙ h in
      (
        rising peer q s rounds es few run,
        sealing peer.endpoint peer.pub_key peer q s s.sender_nonce rounds es refl refl refl few run,
      )
