-- ===== src/Head/Serving.antt =====
-- A client of the head server from its connection to its end: `process_client` and `await_handshake` of
-- headlink/src/client.rs in the task of main.rs, for a client that is served without another one between.
use vlink.Prelude.{ℕ, Bool, true, false, List, [], ◌∷◌, ◌++◌, Option, none, some, if◌then◌else◌}
use vlink.Outcome.{Outcome, ok, err, panic}
use vlink.Head.{VlinkNetwork, Delivery, resp_handshake}
use vlink.Head.Requests.{ExecuteError, ClientRequest, ToServerData}
use vlink.Head.Config.{Database}
use vlink.Head.Dispatch.{dispatch, process}
use vlink.Head.Clients.{
  Rows, Server, ServerError, Step, put_network, insert_client, get_network, handshake0, disconnect,
}

-- What is left of a client: the server, what it was sent, and whether its task goes on to its end.
abbrev pub Served : Type 0
Served = Server × List Delivery × Bool

unfoldable pub is_panic : {A : Type 0} → Outcome ExecuteError A → Bool
is_panic (ok a) = false
is_panic (err e) = false
is_panic panic = true

-- The loop of `process_client`; a message without data is skipped.
unfoldable pub serve_requests :
    Database → Server → ℕ → List ℕ × ℕ → List (ℕ × Option ToServerData) → Served
serve_requests db server addr name [] = (server, [], true)
serve_requests db server addr name ((n, none) ∷ messages) =
    serve_requests db server addr name messages
serve_requests db server addr name ((n, some request) ∷ messages) = elim (server.networks name.1) [
  | none ↦ (server, [], true)
  | some net ↦
      let ctx : ClientRequest = record { id = n; pub_key = name.0; connect = addr } in
      let done = process db net ctx request in
      let after = put_network server name.1 done.0 in
      let rest = serve_requests db after addr name messages in
      if is_panic (dispatch db net ctx request).1
      then (after, [], false)
      else (rest.0, done.1 ++ rest.1, rest.2)
]

-- `process_client` behind the handshake.
unfoldable pub serve_network :
    Database → ℕ → List ℕ × ℕ → List (ℕ × Option ToServerData) → Step VlinkNetwork → Served
serve_network db addr name messages (server, ok net) = serve_requests db server addr name messages
serve_network db addr name messages (server, err e) = (server, [], true)
serve_network db addr name messages (server, panic) = (server, [], false)

unfoldable pub serve_named :
    Rows → Database → ℕ → List (ℕ × Option ToServerData) → Step (List ℕ × ℕ) → Served
serve_named rows db addr messages (server, ok name) =
    serve_network db addr name messages (get_network rows server name.1)
serve_named rows db addr messages (server, err e) = (server, [], true)
serve_named rows db addr messages (server, panic) = (server, [], false)

-- The answer to a handshake.
unfoldable pub handshake_reply : ℕ → ℕ → Outcome ServerError (List ℕ × ℕ) → List Delivery
handshake_reply addr n (ok name) =
    record { connect = addr; id = some n; body = resp_handshake true } ∷ []
handshake_reply addr n (err e) =
    record { connect = addr; id = some n; body = resp_handshake false } ∷ []
handshake_reply addr n panic = []

-- `process_client`, with the first message, if one comes in time.
unfoldable pub process_client :
    Rows
    → Database
    → Server
    → ℕ
    → Option (ℕ × List ℕ × Option (List ℕ))
    → List (ℕ × Option ToServerData)
    → Served
process_client rows db server addr none messages = (server, [], true)
process_client rows db server addr (some (n, key, token)) messages =
    let shaken = handshake0 rows server addr key token in
    let done = serve_named rows db addr messages shaken in
    (done.0, handshake_reply addr n shaken.1 ++ done.1, done.2)

-- The task of `main` for a connection.
unfoldable pub serve_client :
    Rows
    → Database
    → Server
    → ℕ
    → Option (ℕ × List ℕ × Option (List ℕ))
    → List (ℕ × Option ToServerData)
    → Server × List Delivery
serve_client rows db server addr first messages =
    let done = process_client rows db (insert_client server addr) addr first messages in
    let gone = disconnect rows done.0 addr in
    if done.2 then (gone.0, done.1 ++ gone.1) else (done.0, done.1)
