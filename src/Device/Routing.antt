-- ===== src/Device/Routing.antt =====
-- Data of the tun device goes only to a peer that allows the destination.
use vlink.Outcome.{Outcome}
