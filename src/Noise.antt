-- ===== src/Noise.antt =====
-- The Noise layer of vlink-tun/src/noise: keys, the handshake messages, cookies and timestamps.
pub mod Crypto
pub mod Timestamp
pub mod Order
pub mod Cookie
pub mod Handshake
pub mod Laws
pub mod Sealing
pub mod Agreement
pub mod Reply
pub mod Macs
pub mod Examples
