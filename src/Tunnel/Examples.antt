-- ===== src/Tunnel/Examples.antt =====
-- The theorems on a tunnel, at stand-ins for the crates.
use vlink.Prelude.{ℕ, ◌%◌, ◌^◌, ◌≡◌, refl, List, [], ◌∷◌, ◌++◌, replicate}
use vlink.Outcome.{ok}
use vlink.Protocol.{TransportData}
use vlink.Noise.Crypto.{aead_encrypt}
use vlink.Noise.Handshake.{outgoing_response}
use vlink.Noise.Examples.{stand_in, stand_in-IsLawful, to_bob, to_alice, sent, received, value_or}
use vlink.Replay.{new}
use vlink.Sessions.{Session, new_index}
use vlink.Tunnel.{
  initiation, Handshake, new_handshake, cipher, new_session, encrypt_data, decrypt_data,
  cipher_encrypt, next_nonce, respond,
}
use vlink.Tunnel.Pairing.{decrypt-encrypt}

abbrev session : ℕ → ℕ → Session
session mine theirs = record {
  secret = to_bob;
  sender_index = mine;
  sender_nonce = 41;
  sender_key = replicate 32 6;
  receiver_index = theirs;
  receiver_key = replicate 32 6;
  nonce_filter = new;
  created_at = 0;
}

abbrev text : List ℕ
text = 7 ∷ 8 ∷ []

abbrev sealed : TransportData
sealed = record { receiver_index = 2; counter = 41; payload = text ++ replicate 16 0 }

decrypt-encrypt_example :
    (decrypt_data stand_in (session 2 1) sealed ≡ ok text)
    × (sealed.counter ≡ 41)
    × ((encrypt_data stand_in (session 1 2) text).0.sender_nonce ≡ 42 % 2 ^ 64)
unfolding encrypt_data cipher_encrypt next_nonce
decrypt-encrypt_example =
    decrypt-encrypt stand_in stand_in-IsLawful (session 1 2) (session 2 1) text sealed
      (record { key_eq = refl; index_eq = refl }) refl

abbrev waiting : Handshake
waiting = record (new_handshake stand_in to_bob (new_index 8)) { state = initiation sent.0 }

abbrev responder : Handshake
responder = new_handshake stand_in to_alice (new_index 8)

given : Handshake × Session × List ℕ
given = value_or (respond stand_in responder received (6 ∷ []) 0) (responder, session 1 2, [])

given_lem : respond stand_in responder received (6 ∷ []) 0 ≡ ok (given.0, given.1, given.2)
unfolding given respond outgoing_response aead_encrypt new_session cipher
given_lem = refl
