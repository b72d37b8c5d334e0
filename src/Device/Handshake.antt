-- ===== src/Device/Handshake.antt =====
-- The whole handshake: two devices end up with sessions of which each opens what the other seals.
use vlink.Prelude.{
  ℕ, ◌<◌, ◌^◌, List, [], ◌∷◌, length, Option, none, some, ◌≡◌, refl, sym, ap, ◌∙◌, ==_refl,
}
use vlink.Outcome.{Outcome, ok}
use vlink.Protocol.{Error}
use vlink.Noise.Crypto.{Primitives, local_secret}
use vlink.Noise.Cookie.{SocketAddr, mac_generator, new_cookie}
use vlink.Noise.Handshake.{OutgoingInitiation, outgoing_initiation}
use vlink.Noise.Laws.{IsLawful}
use vlink.Noise.Agreement.{secret_towards}
use vlink.Sessions.{Session, ActiveSession, get_by_index}
use vlink.Sessions.Slots.{first}
use vlink.Sessions.Peer.{IsHeld}
use vlink.Peer.{Peer, Effect, sent, send_outbound}
use vlink.Outbound.{start_handshake}
use vlink.Outbound.Starting.{IsStarted, start_handshake-IsStarted}
use vlink.Cidr.{Networks}
use vlink.Peers.{get_by_key}
use vlink.Device.{DeviceInner}
use vlink.Device.Meeting.{IsReceived, initiation-IsReceived}

pub sent_eq :
    {e k : ℕ} {bs cs : List ℕ} → ◌≡◌ {A = List Effect} (sent e bs ∷ []) (sent k cs ∷ []) → bs ≡ cs
sent_eq h = cc

-- The registry finds the session that waits.
pub waiting-found :
    (rest : ℕ → Option Session) (a : ActiveSession) (s : Session) (i : ℕ)
    → IsHeld rest a
    → a.uninit ≡ some s
    → i ≡ s.sender_index
    → get_by_index a.index i ≡ some s
unfolding get_by_index
waiting-found rest a s i held waits is_index =
    held.found i
    ∙ ap (λ u. first rest (u ∷ a.previous ∷ a.current ∷ a.next ∷ []) i) waits
    ∙ rw (is_index, ==_refl s.sender_index) refl

module _ (p : Primitives) (law : IsLawful p) where
  -- The payload that a started handshake sends.
  started-payload :
      (rest : ℕ → Option Session) (peer peer1 : Peer) (e stamp : List ℕ) (now to : ℕ)
      (payload : List ℕ)
      (started : IsStarted p law rest peer peer1 e stamp now (sent to payload ∷ []))
      → peer.endpoint ≡ some to
      → started.payload ≡ payload
  unfolding send_outbound
  started-payload rest peer peer1 e stamp now to payload started endpoint =
      let leaves : send_outbound peer started.payload ≡ sent to started.payload ∷ [] =
        rw (endpoint, send_outbound) refl in
      sent_eq (sym leaves ∙ sym started.leaves)

  -- A peer that holds the key `mine` and talks to the holder of the key `theirs`.
  pub record IsTied (mine theirs psk : List ℕ) (peer : Peer) : Type 0 where
    pub secret : peer.handshake.secret ≡ secret_towards p mine theirs psk
    pub macs : peer.handshake.macs ≡ mac_generator p (secret_towards p mine theirs psk)
    pub index_u32 : peer.handshake.session_index.index < 256 ^ 4

  -- A device that holds the key `mine` and knows the holder of the key `theirs`.
  pub record IsHost {Net Table : Type 0} (n : Networks Net Table) (mine theirs : List ℕ)
      (inner : DeviceInner Net Table) : Type 0 where
    pub secret : inner.secret ≡ local_secret p mine
    pub cookie : inner.cookie ≡ new_cookie p (local_secret p mine)
    pub peer : Peer
    pub known : get_by_key n p inner.peers (p.public_of theirs) ≡ some peer

  pub started-sent :
      (rest : ℕ → Option Session) (a b psk e stamp : List ℕ) (peer peer1 : Peer) (now to : ℕ)
      (payload : List ℕ)
      (started : IsStarted p law rest peer peer1 e stamp now (sent to payload ∷ []))
      → IsTied a b psk peer
      → peer.endpoint ≡ some to
      → outgoing_initiation p peer.handshake.session_index.index
          (secret_towards p a b psk)
          (mac_generator p (secret_towards p a b psk))
          e
          stamp
          now
        ≡ ok (started.out, payload)
  started-sent rest a b psk e stamp peer peer1 now to payload started tied endpoint =
      let is_payload = started-payload rest peer peer1 e stamp now to payload started endpoint in
      ap
        (λ s.
          outgoing_initiation p peer.handshake.session_index.index s
            (mac_generator p (secret_towards p a b psk)) e stamp now)
        (sym tied.secret)
      ∙ ap
          (λ m.
            outgoing_initiation p peer.handshake.session_index.index peer.handshake.secret m e stamp
              now)
          (sym tied.macs)
      ∙ started.made
      ∙ ap {B = Outcome Error (OutgoingInitiation × List ℕ)} (λ bs. ok (started.out, bs)) is_payload

  module _ {Net Table : Type 0} (n : Networks Net Table) (rest : ℕ → Option Session)
      (a b psk e stamp : List ℕ) (alpha alpha1 : Peer) (now to : ℕ) (payload : List ℕ)
      (bob : DeviceInner Net Table) (from : ℕ) (dst : SocketAddr) (then_b : ℕ)
      (nonce fresh : List ℕ) where
    pub received :
        (started : IsStarted p law rest alpha alpha1 e stamp now (sent to payload ∷ []))
        → IsTied a b psk alpha
        → alpha.endpoint ≡ some to
        → length stamp ≡ 12
        → IsHost n b a bob
        → IsReceived n p law bob from dst payload then_b nonce fresh a started.out
    received started tied endpoint sized host =
        initiation-IsReceived n p law bob from dst payload then_b nonce fresh a b psk e stamp
          alpha.handshake.session_index.index now started.out host.peer host.secret host.cookie
          host.known
          (started-sent rest a b psk e stamp alpha alpha1 now to payload started tied endpoint)
          tied.index_u32 sized

    -- Under lawful crates, where a peer with an endpoint holds the static key of a device, has mac1
    -- made for it, a 32-bit index that is free and a consistent registry, and the device knows the
    -- peer's key: for the packet that `start_handshake` sends, the device stages an initiation for
    -- that peer which shares its index, hash, chaining key and ephemeral key with the initiator's
    -- state.
    pub start_handshake-IsReceived :
        alpha.handshake.session_index ≡ alpha.sessions.index
        → IsHeld rest alpha.sessions
        → get_by_index alpha.sessions.index alpha.handshake.session_index.index ≡ none
        → IsTied a b psk alpha
        → alpha.endpoint ≡ some to
        → length stamp ≡ 12
        → IsHost n b a bob
        → start_handshake p alpha e stamp now ≡ ok (alpha1, sent to payload ∷ [])
        → (out : OutgoingInitiation) × IsReceived n p law bob from dst payload then_b nonce fresh a
            out
    start_handshake-IsReceived alias held free tied endpoint sized host h =
        let started =
          start_handshake-IsStarted p law rest alpha alpha1 e stamp now (sent to payload ∷ []) alias
            held free h in
        (started.out, received started tied endpoint sized host)
