-- ===== src/Outbound/Starting.antt =====
-- What a started handshake leaves behind: a session that waits in the registry, and one packet.
use vlink.Prelude.{ℕ, List, [], ◌∷◌, replicate, Option, none, some, ◌≡◌, refl, sym, ap, ◌∙◌}
use vlink.Outcome.{ok_inj, bind-eq-ok, Outcome, ok, ◌>>=◌}
use vlink.Protocol.{Error}
use vlink.Noise.Crypto.{Primitives, PeerStaticSecret}
use vlink.Noise.Handshake.{OutgoingInitiation, outgoing_initiation}
use vlink.Noise.Laws.{IsLawful}
use vlink.Replay.{new}
use vlink.Sessions.{Session, SessionIndex, ActiveSession, next_index, get_by_index, prepare_uninit}
use vlink.Sessions.Peer.{IsHeld, prepare_uninit-IsHeld}
use vlink.Tunnel.{initiation, Handshake, initiate, new_session}
use vlink.Tunnel.Pairing.{new_session-eq}
use vlink.Peer.{Peer, Effect, send_outbound, put_sessions, put_handshake, mark_initiated}
use vlink.Outbound.{start_handshake}

-- The session that waits for a response.
abbrev pub pre_session : PeerStaticSecret → ℕ → ℕ → Session
pre_session secret index now = record {
  secret = secret;
  sender_index = index;
  sender_nonce = 0;
  sender_key = replicate 32 0;
  receiver_index = 0;
  receiver_key = replicate 32 0;
  nonce_filter = new;
  created_at = now;
}

-- Taking the next index changes no session of the registry.
IsHeld-next_index :
    (rest : ℕ → Option Session) (a : ActiveSession)
    → IsHeld rest a
    → IsHeld rest (record a { index = (next_index a.index).1 })
unfolding next_index
IsHeld-next_index rest a h = record { consistent = h.consistent; found = h.found; apart = h.apart }

get_by_index-next : (r : SessionIndex) (i : ℕ) → get_by_index (next_index r).1 i ≡ get_by_index r i
unfolding next_index get_by_index
get_by_index-next r i = refl

abbrev first_slot : List (Option Session) → Option Session
first_slot [] = none
first_slot (slot ∷ others) = slot

module _ (p : Primitives) (law : IsLawful p) where
  initiate-eq-ok :
      (h : Handshake) (e stamp : List ℕ) (now : ℕ) (r : Handshake × Session × List ℕ)
      → initiate p h e stamp now ≡ ok r
      → (out : OutgoingInitiation) × (payload : List ℕ) × (outgoing_initiation p
            h.session_index.index h.secret h.macs e stamp now
          ≡ ok (out, payload))
        × (r ≡ (
          record h { state = initiation out; session_index = (next_index h.session_index).1 },
          pre_session h.secret h.session_index.index now,
          payload,
        ))
  unfolding initiate next_index
  initiate-eq-ok h e stamp now r made =
      let (made_of, sealed, rest) =
        bind-eq-ok (outgoing_initiation p h.session_index.index h.secret h.macs e stamp now) _
          made in
      let (pre, fresh, done) =
        bind-eq-ok
          (new_session p h.secret h.session_index.index (replicate 32 0) 0 (replicate 32 0) now) _
          rest in
      let is_pre = ok_inj (sym fresh ∙ new_session-eq p law _ _ _ _ _ _ refl refl) in
      (
        made_of.0,
        made_of.1,
        sealed,
        sym (ok_inj done)
            ∙ ap
                (λ s. (
                  record h {
                    state = initiation made_of.0;
                    session_index = (next_index h.session_index).1;
                  },
                  s,
                  made_of.1,
                ))
                is_pre,
      )

  -- The peer behind the start of a handshake.
  pub record IsStarted (rest : ℕ → Option Session) (peer peer1 : Peer) (e stamp : List ℕ) (now : ℕ)
      (es : List Effect) : Type 0 where
    pub out : OutgoingInitiation
    pub payload : List ℕ
    pub made :
        outgoing_initiation p peer.handshake.session_index.index peer.handshake.secret
          peer.handshake.macs e stamp now
        ≡ ok (out, payload)
    pub state : peer1.handshake.state ≡ initiation out
    pub secret : peer1.handshake.secret ≡ peer.handshake.secret
    pub waits :
        peer1.sessions.uninit
        ≡ some (pre_session peer.handshake.secret peer.handshake.session_index.index now)
    pub held : IsHeld rest peer1.sessions
    pub leaves : es ≡ send_outbound peer payload

  pub start_handshake-IsStarted :
      (rest : ℕ → Option Session) (peer peer1 : Peer) (e stamp : List ℕ) (now : ℕ)
      (es : List Effect)
      → peer.handshake.session_index ≡ peer.sessions.index
      → IsHeld rest peer.sessions
      → get_by_index peer.sessions.index peer.handshake.session_index.index ≡ none
      → start_handshake p peer e stamp now ≡ ok (peer1, es)
      → IsStarted rest peer peer1 e stamp now es
  unfolding start_handshake put_handshake put_sessions mark_initiated send_outbound get_by_index
  start_handshake-IsStarted rest peer peer1 e stamp now es alias held fresh h =
      let (r, e1, k) = bind-eq-ok (initiate p peer.handshake e stamp now) _ h in
      let (out, payload, made, is_r) = initiate-eq-ok peer.handshake e stamp now r e1 in
      let pre = pre_session peer.handshake.secret peer.handshake.session_index.index now in
      let bumped : ActiveSession = record peer.sessions {
        index = (next_index peer.handshake.session_index).1;
      } in
      let ready : IsHeld rest bumped = rw (alias) (IsHeld-next_index rest peer.sessions held) in
      let free =
        ap (λ q. get_by_index (next_index q).1 pre.sender_index) alias
        ∙ get_by_index-next _ _
        ∙ fresh in
      let (b, prepared, held1, slots1) = prepare_uninit-IsHeld rest bumped pre ready free in
      let behind : Handshake × Session × List ℕ → Outcome Error (Peer × List Effect) = λ x.
        prepare_uninit (put_handshake peer x.0).sessions x.1 >>= λ sessions. ok (
          mark_initiated now (put_sessions (put_handshake peer x.0) sessions),
          send_outbound (put_sessions (put_handshake peer x.0) sessions) x.2,
        ) in
      let (sessions, e2, done) =
        bind-eq-ok (prepare_uninit bumped pre) _ (ap behind (sym is_r) ∙ k) in
      let parts = ok_inj done in
      let is_b : peer1.sessions ≡ b =
        ap (λ (x : Peer × List Effect). x.0.sessions) (sym parts) ∙ ok_inj (sym e2 ∙ prepared) in
      record {
        out = out;
        payload = payload;
        made = made;
        state = ap (λ (x : Peer × List Effect). x.0.handshake.state) (sym parts);
        secret = ap (λ (x : Peer × List Effect). x.0.handshake.secret) (sym parts);
        waits = ap (λ (c : ActiveSession). c.uninit) is_b ∙ ap first_slot slots1;
        held = rw (is_b) held1;
        leaves = ap (λ (x : Peer × List Effect). x.1) (sym parts);
      }
