-- ===== src/Peer.antt =====
-- A peer of the device, vlink-tun/src/device/peer/mod.rs. An endpoint is the number of its sender; the clock
-- is an argument. What an operation does to the world is a list of effects, in order. The handshake and
-- the sessions share one registry: the two fields that hold it are written together.
use vlink.Prelude.{ℕ, Bool, not, List, [], ◌∷◌, Option, none, some, if◌then◌else◌}
use vlink.Noise.Crypto.{Primitives, PeerStaticSecret}
use vlink.Sessions.{SessionIndex, ActiveSession, new_active}
use vlink.Tunnel.{Handshake, new_handshake}
use vlink.Monitor.{
  PeerMonitor, AtomicTimestamp, inbound, outbound, initiated, completed, can, attempt,
  new as new_monitor,
}

-- A packet for an endpoint, data for the tun device, data staged for the outbound loop, and the events
-- that the peer publishes.
pub data Effect : Type 0 where
  sent : ℕ → List ℕ → Effect
  delivered : List ℕ → Effect
  staged : List ℕ → Effect
  handshake_complete : List ℕ → Effect
  session_failed no_endpoint : List ℕ → Effect

pub record Peer : Type 0 where
  pub pub_key : List ℕ
  pub online : Bool
  pub monitor : PeerMonitor
  pub handshake : Handshake
  pub sessions : ActiveSession
  pub endpoint : Option ℕ

-- `Peer::new` at the time `now`
unfoldable pub new_peer :
    Primitives → PeerStaticSecret → SessionIndex → Option ℕ → Option ℕ → Bool → ℕ → Peer
new_peer p secret index endpoint interval is_online now = record {
  pub_key = secret.public;
  online = is_online;
  monitor = new_monitor now interval;
  handshake = new_handshake p secret index;
  sessions = new_active index;
  endpoint = endpoint;
}

unfoldable pub set_online : Peer → Bool → Peer
set_online peer val = record peer { online = val }

unfoldable pub update_endpoint : Peer → ℕ → Peer
update_endpoint peer endpoint = record peer { endpoint = some endpoint }

unfoldable pub clear_endpoint : Peer → Peer
clear_endpoint peer = record peer { endpoint = none }

-- `send_outbound`; a failure of the sender is only logged.
unfoldable pub send_outbound : Peer → List ℕ → List Effect
send_outbound peer buf = elim peer.endpoint [
  | some endpoint ↦ sent endpoint buf ∷ []
  | none ↦ no_endpoint peer.pub_key ∷ []
]

-- `keepalive`, at the time `now`
unfoldable pub keepalive : Peer → ℕ → Peer × List Effect
keepalive peer now =
    if not (can now peer.monitor.keepalive peer.monitor.traffic)
    then (peer, [])
    else if not peer.online
    then (peer, [])
    else (
      record peer {
        monitor = record peer.monitor { keepalive = attempt now peer.monitor.keepalive };
      },
      staged [] ∷ [],
    )

-- The writes through the two locks.
unfoldable pub put_sessions : Peer → ActiveSession → Peer
put_sessions peer sessions = record peer {
  sessions = sessions;
  handshake = record peer.handshake { session_index = sessions.index };
}

unfoldable pub put_handshake : Peer → Handshake → Peer
put_handshake peer handshake = record peer {
  handshake = handshake;
  sessions = record peer.sessions { index = handshake.session_index };
}

-- `peer.monitor.traffic().inbound(..)`, `.handshake().initiated()` and `.handshake().completed()`
unfoldable pub count : ℕ → Peer → Peer
count bytes peer = record peer {
  monitor = record peer.monitor { traffic = inbound bytes peer.monitor.traffic };
}

unfoldable pub count_sent : ℕ → ℕ → Peer → Peer
count_sent now bytes peer = record peer {
  monitor = record peer.monitor { traffic = outbound now bytes peer.monitor.traffic };
}

unfoldable pub mark_initiated : ℕ → Peer → Peer
mark_initiated now peer = record peer {
  monitor = record peer.monitor { handshake = initiated now peer.monitor.handshake };
}

unfoldable pub mark_completed : ℕ → AtomicTimestamp → Peer → Peer
mark_completed now system peer = record peer {
  monitor = record peer.monitor { handshake = completed now system peer.monitor.handshake };
}
