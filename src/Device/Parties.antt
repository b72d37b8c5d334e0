-- ===== src/Device/Parties.antt =====
-- Two devices that meet, at stand-ins for the crates.
use vlink.Prelude.{
  ℕ, ◌≡◌, refl, true, List, [], ◌∷◌, replicate, Option, none, some, if◌then◌else◌, arith,
}
use vlink.Bytes.{bytes_eq}
use vlink.Outcome.{ok}
use vlink.Protocol.{parse, is_handshake, initiation_of_bytes}
use vlink.Noise.Crypto.{mac, hash, aead_encrypt, aead_decrypt, local_secret}
use vlink.Noise.Cookie.{
  SocketAddr, v4, new_cookie, validate_mac1, generate_mac1, generate_mac2, mac_generator,
  label_mac1,
}
use vlink.Noise.Handshake.{
  IncomingInitiation, outgoing_initiation, outgoing_response, incoming_initiation, with_macs,
}
use vlink.Noise.Examples.{stand_in, stand_in-IsLawful, alice, bob, psk, to_bob, to_alice, value_or}
use vlink.Sessions.{
  SessionIndex, new_index, new_active, get_by_index, prepare_uninit, prepare_next, make_room,
  deactivate,
}
use vlink.Sessions.Peer.{IsHeld}
use vlink.Tunnel.{new_handshake, new_session, cipher, initiate, respond}
use vlink.Monitor.{AtomicTimestamp}
use vlink.Peer.{
  Peer, Effect, sent, new_peer, send_outbound, put_sessions, put_handshake, mark_initiated, count,
  update_endpoint,
}
use vlink.Inbound.{handshake_initiation_event, handle_handshake_initiation}
use vlink.Outbound.{start_handshake}
use vlink.Cidr.Examples.{Range, ranges}
use vlink.Peers.{PeerList, get_by_key}
use vlink.Device.{
  DeviceInner, Action, inbound_staged, new_device, fetch_token, dispatch, stage_message,
  tick_inbound,
}
use vlink.Device.Handshake.{IsTied, IsHost}
use vlink.Device.Completion.{IsMet, handshake-IsMet}

abbrev alpha : Peer
alpha = new_peer stand_in to_bob (new_index 7) (some 5) none true 0

abbrev beta : Peer
beta = new_peer stand_in to_alice (new_index 8) none none true 0

abbrev stamp : List ℕ
stamp = replicate 12 1

abbrev clock : AtomicTimestamp
clock = record { secs = 1; nanos = 2 }

abbrev addr : SocketAddr
addr = v4 (10 ∷ 0 ∷ 0 ∷ 1 ∷ []) 80

-- The bytes that an effect sends.
abbrev bytes_of : List Effect → List ℕ
bytes_of (sent to bytes ∷ es) = bytes
bytes_of es = []

started : Peer × List Effect
started = value_or (start_handshake stand_in alpha (5 ∷ []) stamp 3) (alpha, [])

started_lem :
    start_handshake stand_in alpha (5 ∷ []) stamp 3
    ≡ ok (started.0, sent 5 (bytes_of started.1) ∷ [])
unfolding started start_handshake initiate outgoing_initiation aead_encrypt new_session cipher
    new_peer new_handshake new_active put_handshake put_sessions mark_initiated send_outbound
    prepare_uninit new_index deactivate
started_lem = refl

abbrev payload : List ℕ
payload = bytes_of started.1

-- A list with one peer.
abbrev only : List ℕ → Peer → SessionIndex → PeerList Range (Range → Option (List ℕ))
only key peer sessions = record {
  sessions = sessions;
  ips = λ net. none;
  peers = λ k. if bytes_eq k key then some (record { peer = peer; allowed_ips = [] }) else none;
}

abbrev device_a : DeviceInner Range (Range → Option (List ℕ))
device_a =
    new_device ranges stand_in (only to_bob.public started.0 started.0.sessions.index) alice 0

abbrev device_b : DeviceInner Range (Range → Option (List ℕ))
device_b = new_device ranges stand_in (only to_alice.public beta (new_index 8)) bob 0

abbrev nobody : IncomingInitiation
nobody = record {
  index = 0;
  hash = [];
  chaining_key = [];
  timestamp = [];
  ephemeral_public_key = [];
  static_public_key = [];
}

abbrev inc_of : List Action → IncomingInitiation
inc_of (inbound_staged key from (handshake_initiation_event inc) ∷ []) = inc
inc_of actions = nobody

noticed : DeviceInner Range (Range → Option (List ℕ)) × List Action
noticed = value_or (tick_inbound ranges stand_in device_b 6 addr payload 4 [] []) (device_b, [])

noticed_lem :
    tick_inbound ranges stand_in device_b 6 addr payload 4 [] []
    ≡ ok (
      device_b,
      inbound_staged to_alice.public 6 (handshake_initiation_event (inc_of noticed.1)) ∷ [],
    )
unfolding noticed tick_inbound dispatch stage_message is_handshake parse validate_mac1
    initiation_of_bytes incoming_initiation aead_decrypt new_device new_cookie local_secret
    get_by_key bytes_eq started start_handshake initiate outgoing_initiation aead_encrypt
    new_session cipher new_peer new_handshake new_active put_handshake put_sessions mark_initiated
    send_outbound prepare_uninit new_index deactivate with_macs generate_mac1 generate_mac2
    mac_generator label_mac1 mac hash fetch_token
noticed_lem = refl

abbrev inc : IncomingInitiation
inc = inc_of noticed.1

answered : Peer × List Effect
answered = value_or (handle_handshake_initiation stand_in beta 6 inc (6 ∷ []) 4) (beta, [])

answered_lem :
    handle_handshake_initiation stand_in beta 6 inc (6 ∷ []) 4
    ≡ ok (answered.0, sent 6 (bytes_of answered.1) ∷ [])
unfolding answered handle_handshake_initiation respond outgoing_response aead_encrypt new_session
    cipher new_peer new_handshake new_active put_handshake put_sessions mark_initiated count
    update_endpoint prepare_next make_room new_index deactivate
answered_lem = refl

alpha-IsHeld : IsHeld (λ i. none) alpha.sessions
unfolding new_peer new_active new_index
alpha-IsHeld = record { consistent = λ i s h. cc; found = λ i. refl; apart = λ i. omega arith }

alpha-IsTied : IsTied stand_in stand_in-IsLawful alice bob psk alpha
unfolding new_peer new_handshake new_index
alpha-IsTied = record { secret = refl; macs = refl; index_u32 = omega arith }

beta-IsTied : IsTied stand_in stand_in-IsLawful bob alice psk beta
unfolding new_peer new_handshake new_index
beta-IsTied = record { secret = refl; macs = refl; index_u32 = omega arith }

device_a-IsHost : IsHost stand_in stand_in-IsLawful ranges alice bob device_a
unfolding new_device get_by_key bytes_eq local_secret
device_a-IsHost = record { secret = refl; cookie = refl; peer = started.0; known = refl }

device_b-IsHost : IsHost stand_in stand_in-IsLawful ranges bob alice device_b
unfolding new_device get_by_key bytes_eq local_secret
device_b-IsHost = record { secret = refl; cookie = refl; peer = beta; known = refl }

handshake-IsMet_example :
    IsMet stand_in stand_in-IsLawful ranges bob device_a 5 addr
      (bytes_of answered.1)
      9
      []
      []
      clock
      started.0
      answered.0
unfolding new_peer new_active new_handshake new_index get_by_index new_device
handshake-IsMet_example =
    handshake-IsMet stand_in stand_in-IsLawful ranges (λ i. none) alice bob psk (5 ∷ []) (6 ∷ [])
      stamp alpha started.0 beta answered.0 3 5 payload device_a device_b 6 5 addr addr 9 4 [] []
      inc (bytes_of answered.1) clock refl alpha-IsHeld refl alpha-IsTied beta-IsTied refl refl
      device_b-IsHost device_a-IsHost refl started_lem noticed_lem answered_lem
