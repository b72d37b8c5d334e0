-- ===== src/Tunnel.antt =====
-- Two peers over one tunnel: vlink-tun/src/device/peer/handshake.rs, the encryption of
-- device/peer/session.rs and device/cipher/chacha20_poly1305_cipher.rs. The ephemeral key, the timestamp
-- and the current time are arguments.
pub mod Pairing
mod Examples
use vlink.Prelude.{ℕ, ◌+◌, ◌%◌, ◌^◌, Bool, true, ◌&&◌, List, [], replicate, ◌==◌, if◌then◌else◌}
use vlink.Outcome.{Outcome, ok, err, panic, ◌>>=◌, ◌>>◌, require, unwrap}
use vlink.Protocol.{
  Error, TransportData, HandshakeResponse, invalid_key_length, receiver_index_not_match,
  invalid_handshake_state, encryption, decryption,
}
use vlink.Noise.Crypto.{Primitives, PeerStaticSecret, kdf2, nonce_of, or_error}
use vlink.Noise.Cookie.{MacGenerator, mac_generator}
use vlink.Noise.Handshake.{
  OutgoingInitiation, IncomingInitiation, outgoing_initiation, outgoing_response, incoming_response,
}
use vlink.Sessions.{Session, SessionIndex, next_index}
use vlink.Replay.{new}

pub data State : Type 0 where
  uninit : State
  initiation : OutgoingInitiation → State

pub record Handshake : Type 0 where
  pub state : State
  pub secret : PeerStaticSecret
  pub macs : MacGenerator
  pub session_index : SessionIndex

unfoldable pub next_nonce : Session → ℕ × Session
next_nonce s = (s.sender_nonce, record s { sender_nonce = (s.sender_nonce + 1) % 2 ^ 64 })

module _ (p : Primitives) where
  -- `ChachaCipher::new`: the cipher is its key.
  unfoldable pub cipher : List ℕ → Outcome Error (List ℕ)
  cipher key = if p.is_key key then ok key else err invalid_key_length

  unfoldable pub cipher_encrypt : List ℕ → ℕ → List ℕ → List ℕ → Outcome Error (List ℕ)
  cipher_encrypt key counter msg aad = or_error (p.seal key (nonce_of counter) msg aad) encryption

  unfoldable pub cipher_decrypt : List ℕ → ℕ → List ℕ → List ℕ → Outcome Error (List ℕ)
  cipher_decrypt key counter msg aad = or_error (p.unseal key (nonce_of counter) msg aad) decryption

  -- `Session::new` at the time `now`
  unfoldable pub new_session :
      PeerStaticSecret → ℕ → List ℕ → ℕ → List ℕ → ℕ → Outcome Error Session
  new_session secret sender_index sender_key receiver_index receiver_key now = do
    encrypt_cipher ← unwrap (cipher sender_key)
    decrypt_cipher ← unwrap (cipher receiver_key)
    ok (record {
      secret = secret;
      sender_index = sender_index;
      sender_nonce = 0;
      sender_key = encrypt_cipher;
      receiver_index = receiver_index;
      receiver_key = decrypt_cipher;
      nonce_filter = new;
      created_at = now;
    })

  -- The nonce is taken before the encryption, which may fail: the session comes back either way.
  unfoldable pub encrypt_data : Session → List ℕ → Session × Outcome Error TransportData
  unfolding next_nonce
  encrypt_data s data_bytes =
      let (nonce, s') = next_nonce s in
      (
        s',
        cipher_encrypt s.sender_key nonce data_bytes [] >>= λ sealed.
            ok (record { receiver_index = s.receiver_index; counter = nonce; payload = sealed }),
      )

  unfoldable pub decrypt_data : Session → TransportData → Outcome Error (List ℕ)
  decrypt_data s packet =
      require (s.sender_index == packet.receiver_index) receiver_index_not_match
      >> cipher_decrypt s.receiver_key packet.counter packet.payload []

  unfoldable pub new_handshake : PeerStaticSecret → SessionIndex → Handshake
  new_handshake secret index = record {
    state = uninit;
    secret = secret;
    macs = mac_generator p secret;
    session_index = index;
  }

  unfoldable pub initiate :
      Handshake → List ℕ → List ℕ → ℕ → Outcome Error (Handshake × Session × List ℕ)
  initiate h ephemeral stamp now = do
    let taken = next_index h.session_index
    sent ← outgoing_initiation p taken.0 h.secret h.macs ephemeral stamp now
    pre ← new_session h.secret taken.0 (replicate 32 0) 0 (replicate 32 0) now
    ok (record h { state = initiation sent.0; session_index = taken.1 }, pre, sent.1)

  unfoldable pub respond :
      Handshake → IncomingInitiation → List ℕ → ℕ → Outcome Error (Handshake × Session × List ℕ)
  respond h incoming ephemeral now = do
    let taken = next_index h.session_index
    sent ← outgoing_response p incoming taken.0 h.secret h.macs ephemeral now
    let keys = kdf2 p sent.0.chaining_key []
    sess ← new_session h.secret taken.0 keys.1 incoming.index keys.0 now
    ok (record h { session_index = taken.1 }, sess, sent.1)

  unfoldable pub finalize : Handshake → HandshakeResponse → ℕ → Outcome Error Session
  finalize h packet now = elim h.state [
    | uninit ↦ err invalid_handshake_state
    | initiation out ↦ incoming_response p out h.secret packet >>= λ state.
        let keys = kdf2 p state.chaining_key [] in
        new_session h.secret out.index keys.0 state.index keys.1 now
  ]
