-- ===== src/Device/Examples.antt =====
-- The theorems on the loops of a device, at stand-ins for the crates.
use vlink.Prelude.{ℕ, ◌↔◌, List, [], ◌∷◌, ◌++◌, replicate, Option, none, some, true, ◌≡◌, refl}
use vlink.Bytes.{bytes_eq}
use vlink.Outcome.{ok, panic}
use vlink.Protocol.{TransportData, transport_data, parse, is_handshake, transport_of_bytes}
use vlink.Noise.Crypto.{local_secret, with_peer, set_psk}
use vlink.Noise.Cookie.{v4}
use vlink.Noise.Examples.{stand_in, alice, to_bob}
use vlink.Replay.{new}
use vlink.Sessions.{Session, new_index, insert, get_by_index}
use vlink.Cidr.Examples.{Range, everything, ranges}
use vlink.Peers.{
  PeerList, PeerConfig, new_list, get_by_key, get_session_by_index, clear_list, route_all,
  entry_or_insert, insert_entry, secret_of, insert_peer, insert_peers, reset_peers,
}
use vlink.Device.{DeviceInner, new_device, for_session, stage_message, dispatch, tick_inbound}
use vlink.Device.Panics.{IsCrash, tick_inbound-panic_iff}
use vlink.Device.Staging.{IsMeant, tick_inbound-IsMeant}

abbrev config : PeerConfig Range
config = record {
  public_key = to_bob.public;
  allowed_ips = everything ∷ [];
  endpoint = some 5;
  preshared_key = none;
  is_online = true;
  persistent_keepalive = none;
}

abbrev peers : PeerList Range (Range → Option (List ℕ))
peers =
    reset_peers ranges stand_in (local_secret stand_in alice) (new_list ranges stand_in 7)
      (config ∷ []) 0

abbrev session : Session
session = record {
  secret = to_bob;
  sender_index = 2;
  sender_nonce = 0;
  sender_key = replicate 32 6;
  receiver_index = 1;
  receiver_key = replicate 32 6;
  nonce_filter = new;
  created_at = 0;
}

abbrev device : DeviceInner Range (Range → Option (List ℕ))
device =
    new_device ranges stand_in (record peers { sessions = insert peers.sessions session }) alice 0

tick_inbound-panic_iff_example :
    (tick_inbound ranges stand_in device 5
        (v4 (10 ∷ 0 ∷ 0 ∷ 1 ∷ []) 80)
        (4 ∷ 0 ∷ 0 ∷ 0 ∷ [])
        9
        []
        []
      ≡ panic)
    ↔ IsCrash ranges stand_in device (4 ∷ 0 ∷ 0 ∷ 0 ∷ [])
tick_inbound-panic_iff_example =
    tick_inbound-panic_iff ranges stand_in device 5 (v4 (10 ∷ 0 ∷ 0 ∷ 1 ∷ []) 80)
      (4 ∷ 0 ∷ 0 ∷ 0 ∷ []) 9 [] []

abbrev bytes : List ℕ
bytes = 4 ∷ 0 ∷ 0 ∷ 0 ∷ 2 ∷ 0 ∷ 0 ∷ 0 ∷ replicate 24 0

abbrev packet : TransportData
packet = record { receiver_index = 2; counter = 0; payload = replicate 16 0 }

tick_inbound-IsMeant_example :
    (parse bytes ≡ ok (transport_data packet))
    × IsMeant ranges stand_in device packet session to_bob.public
unfolding tick_inbound is_handshake dispatch parse transport_of_bytes stage_message for_session
    get_session_by_index new_device new_list reset_peers clear_list insert_peers insert_peer
    insert_entry entry_or_insert route_all secret_of with_peer set_psk local_secret bytes_eq
    get_by_index insert get_by_key new_index
tick_inbound-IsMeant_example =
    tick_inbound-IsMeant ranges stand_in device device 5 5 (v4 (10 ∷ 0 ∷ 0 ∷ 1 ∷ []) 80) bytes 9 []
      [] to_bob.public packet session [] refl

abbrev ip_packet : List ℕ
ip_packet = 69 ∷ (replicate 15 0 ++ (10 ∷ 0 ∷ 0 ∷ 2 ∷ []))
