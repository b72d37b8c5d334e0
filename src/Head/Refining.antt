-- ===== src/Head/Refining.antt =====
-- The task of one client against what its requests do to its network alone: `main` and `process_client`
-- of headlink/src/, in which the network is looked up in the server at every message.
use vlink.Prelude.{
  ℕ, ◌==◌, true, false, List, [], ◌∷◌, ◌++◌, Option, none, some, if◌then◌else◌, ◌≡◌,
}
use vlink.Head.{VlinkNetwork, Delivery, resp_handshake, offline}
use vlink.Head.Requests.{ClientRequest, ToServerData}
use vlink.Head.Config.{Database}
use vlink.Head.Dispatch.{dispatch, process}
use vlink.Head.Clients.{Rows, Server}
use vlink.Head.Serving.{Served, is_panic}
use vlink.Head.Reach.{Reach}

-- The requests among the messages.
abbrev pub requests : List (ℕ × Option ToServerData) → List (ℕ × ToServerData)
requests [] = []
requests ((n, none) ∷ messages) = requests messages
requests ((n, some request) ∷ messages) = (n, request) ∷ requests messages

abbrev pub asked_by : ℕ → List ℕ → ℕ → ClientRequest
asked_by addr key n = record { id = n; pub_key = key; connect = addr }

-- What requests make of a network, one behind the other, and what is sent for them.
abbrev pub replies :
    Database → ℕ → List ℕ → VlinkNetwork → List (ℕ × ToServerData) → VlinkNetwork × List Delivery
replies db addr key net [] = (net, [])
replies db addr key net ((n, request) ∷ rest) =
    let done = process db net (asked_by addr key n) request in
    let later = replies db addr key done.0 rest in (later.0, done.1 ++ later.1)

-- No handler of the requests ends in a panic.
abbrev pub Completes : Database → ℕ → List ℕ → VlinkNetwork → List (ℕ × ToServerData) → Type 0
Completes db addr key net [] = Unit {0}
Completes db addr key net ((n, request) ∷ rest) =
    (is_panic (dispatch db net (asked_by addr key n) request).1 ≡ false)
    × Completes db addr key (process db net (asked_by addr key n) request).0 rest

-- A server that has one more network, or another state of one.
abbrev pub Differs : Server → ℕ → VlinkNetwork → Server → Type 0
Differs s id net t = (i : ℕ) → t.networks i ≡ (if i == id then some net else s.networks i)

-- What the loop over the messages leaves and sends.
record IsRun (s : Server) (id : ℕ) (spec : VlinkNetwork × List Delivery) (done : Served)
    : Type 0 where
  clients : done.0.clients ≡ s.clients
  networks : Differs s id spec.0 done.0
  deliveries : done.1 ≡ spec.1
  goes_on : done.2 ≡ true

module _ (rows : Rows) (db : Database) (addr : ℕ) (name : List ℕ × ℕ) where
  -- What the task of a client leaves and sends, by what its requests make of its network.
  pub record HasServed (s t : Server) (n : ℕ) (spec : VlinkNetwork × List Delivery)
      (done : Server × List Delivery) : Type 0 where
    pub clients : (a : ℕ) → done.0.clients a ≡ (if a == addr then none else s.clients a)
    pub networks : Differs t name.1 (offline spec.0 name.0).0 done.0
    pub deliveries : done.1 ≡ (
        record { connect = addr; id = some n; body = resp_handshake true }
        ∷ (spec.1 ++ (offline spec.0 name.0).1))
