-- ===== src/Lib.antt =====
-- vlink: a mesh VPN. A device encrypts the packets of a tun interface with WireGuard's Noise
-- handshake and transport messages, and reaches its peers directly or over a DERP relay.
--
-- The parts, bottom up, and the files that model them (paths from the repository's root):
--
-- Protocol: vlink-tun/src/noise/protocol.rs and noise/error.rs. A `try_from` is `..._of_bytes`,
--   `Message::parse` is `parse`, and `TransportData::to_bytes` is `to_bytes`. Protocol/Encoding lays the
--   handshake messages out by their fields, an independent description of what the handshake writes.
-- Noise: vlink-tun/src/noise/. Crypto is crypto.rs over a record `Primitives` of what the crates give;
--   Noise/Laws states what the proofs rely on there, and Noise/Examples has a stand-in that satisfies it.
--   Cookie is handshake/cookie.rs, Handshake is handshake/initiation.rs and response.rs: `X::new` is
--   `outgoing_x` and `X::parse` is `incoming_x`. Timestamp and Order are timestamp.rs.
-- Replay: `NonceFilter` of vlink-tun/src/device/peer/session.rs. The bitmap is a list of words, a word
--   a list of its bits. Replay/Tracking says what the filter knows of the recorded counters,
--   Replay/Refinement compares it with a sliding window, and Replay/Stale has its one exception.
-- Sessions: `SessionIndex` and `ActiveSession` of the same file. The hash maps are functions; the
--   registry that all peers share is the field `index`, passed from step to step.
-- Tunnel: `Session::new`, `encrypt_data` and `decrypt_data`, device/cipher/chacha20_poly1305_cipher.rs, and
--   device/peer/handshake.rs with `initiate`, `respond` and `finalize`. It stands on all of the above.
-- Monitor: vlink-tun/src/device/time.rs and device/peer/monitor.rs, with the current time as an argument.
-- Peer: the peer of vlink-tun/src/device/peer/mod.rs. What an operation sends, delivers, stages or publishes
--   is a list of effects, in order. The handshake and the slots of a peer hold one registry: a write through
--   either lock puts it in both fields.
-- Inbound: the handlers of vlink-tun/src/device/peer/inbound.rs, which compose Tunnel, Sessions, Replay and
--   Monitor, and the dispatch of peer/handler.rs.
-- Outbound: the rounds of the handshake loop and of the outbound loop of peer/handler.rs.
-- Cidr, Peers: device/peer/cidr.rs over a record `Networks` of its crates, whose laws Cidr/Laws states, and
--   device/peer/peers.rs with `reset_peers` and `insert_peer` of device/mod.rs. A reference to a peer is its key.
-- Device: the two ticks of device/handle.rs, over Peers, Noise.Cookie and the events of Inbound; Device/Loop
--   is its inbound loop.
-- Udp: the sockets of vlink-tun/src/device/transport/udp.rs, over a record `Sockets` of what the operating
--   system gives; Udp/Receiving puts them under the inbound loop.
-- Derp: derp/tailscale-derp/src/derp_codec.rs over a record `Crates`: `decode` gives the codec, the rest of
--   the buffer and the result.
--   Derp/Client is the handshake of derp_client.rs and the upgrade request of derp_utils.rs.
-- Frp: derp/frp-client/src/frp_codec.rs and the message header of msg.rs, over a record `Crates` of the
--   JSON records and the cipher of buf_crypto.rs; Frp/Panics has its panics.
--   Frp/Control is frp_control.rs and conn_control.rs.
-- Head: the networks of headlink/src/network.rs, peer.rs and server.rs. Head/Address and Head/Config are
--   client/handler/req_config.rs, Head/Requests the other handlers, Head/Dispatch is client/dispatcher.rs, and
--   Head/Clients has `handshake0` of client.rs and the end of a client in main.rs. The rows of the database
--   and the addresses of a network are records of functions, `Rows` and `Database`. A handler is one step,
--   which never fails to send; the request for a configuration also has its two steps, `choose_address` and
--   `write_address`, since the database is asked between them. Head/Reach is a relation of the steps that the
--   clients make the server take, each of them whole; Head/Serving is the task of one client, and
--   Head/Refining puts it against what the requests do to the network alone. The order in which a map is gone
--   through is a parameter (`Database.order`).
--   Head/Text has the text of addresses, and Head/Joined what a peer has behind its requests.
-- Daemon: vlinkd/src/, over a record `Crates`. Daemon/Config is handler/first_connected.rs and
--   handler/common.rs; Daemon/Events is network/cmd_handler.rs, network/device_handler.rs, handler/connected.rs and the
--   loop of network/mod.rs; Daemon/Client and Daemon/Connect are client.rs and connect.rs; Daemon/Relay is
--   transport/ext_transport_selector.rs and transport/proto/relay_transport.rs. Daemon/Joining composes the
--   daemon with the head server. What is sent is a list of requests, and the attempts and answers of the other
--   end are lists. A receiver of a broadcast channel is never behind it.
-- Nat: vlinkd/src/transport/nat2pub/, over a record `Gateways` of a gateway and what it keeps; Nat/Gateway is
--   what is relied on of it.
-- Snowflake: the two layouts of headlink/src/db/snowflake.rs.
--
-- A function that fails or panics returns an `Outcome` (Outcome.antt): `ok`, `err` or `panic`. Bytes are
-- numbers, and a fixed-size array is the list of its bytes; Bytes/Codec converts integers. Machine
-- integers keep their wrap-around. Random bytes and times are arguments. The loop of `NonceFilter::accept`
-- runs on fuel, the distance to the counter, which is the number of its rounds.
--
-- Bounds: the replay theorems hold for counters of at most REJECT_AFTER_MESSAGES, the
-- bound that protocol.rs states for them; the theorems on timers hold while the clock fits 64 bits of milliseconds. Locks are
-- held for a whole operation, so an operation on the registry or the filter is one step.
--
-- Not modelled: the database of the head server, the tun drivers and routes, the sockets and the tasks of
-- every part, TLS, yamux, the storage and the command line of the daemon, and generated code: they only call
-- the operating system or a library. What a clone of a session shares (its nonce and its filter) is not followed between copies.
pub mod Bytes
pub mod Cidr
pub mod Daemon
pub mod Derp
pub mod Device
pub mod Frp
pub mod Head
pub mod Inbound
pub mod Monitor
pub mod Nat
pub mod Noise
pub mod Outbound
pub mod Outcome
pub mod Peer
pub mod Peers
pub mod Prelude
pub mod Protocol
pub mod Replay
pub mod Sessions
pub mod Snowflake
pub mod Tunnel
pub mod Udp
