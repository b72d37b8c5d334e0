-- ===== src/Daemon/Connect.antt =====
-- A connection of the daemon to the head server: vlinkd/src/connect.rs, and the numbers that the head
-- server gives to what it sends, the loop of `ClientStream::new` in headlink/src/client.rs. A stream is the
-- list of what comes through it.
pub mod Numbers
use vlink.Prelude.{
  ℕ, suc, ◌+◌, ◌==◌, Bool, true, false, not, List, [], ◌∷◌, Option, none, some, if◌then◌else◌,
}
use vlink.Prelude.Words.{add64}
use vlink.Outcome.{Outcome, ok, err, panic, ◌>>=◌}
use vlink.Head.{ToClientData, client_error}
use vlink.Daemon.{DaemonError, closed, timed_out, refused, no_reply, not_connected}

-- The number of a message: the one of the request that it answers, or the next one of the counter.
unfoldable pub next_id : ℕ → Option ℕ → ℕ × ℕ
next_id id none = (add64 id 1, add64 id 1)
next_id id (some k) = (id, k)

-- `to_client_handler` of the head server, from a counter on.
unfoldable pub to_client_handler : ℕ → List (Option ℕ × ToClientData) → List (ℕ × ToClientData)
to_client_handler id [] = []
to_client_handler id ((id_op, body) ∷ queue) =
    let used = next_id id id_op in (used.1, body) ∷ to_client_handler used.0 queue

-- `to_server_handler`: the number under which a message goes out, and the number that its sender gets,
-- which is the counter.
unfoldable pub to_server_handler : ℕ → Option ℕ → ℕ × ℕ × ℕ
to_server_handler id id_op = let used = next_id id id_op in (used.0, used.1, used.0)

-- `ClientConnect::send` on a connection whose counter is known, with the counter after it.
unfoldable pub send : Bool → ℕ → Option ℕ → ℕ × Outcome DaemonError ℕ
send is_connected id id_op =
    if not is_connected
    then (id, err closed)
    else ((to_server_handler id id_op).0, ok (to_server_handler id id_op).2)

-- The wait of `request`, over what arrives until its timeout.
unfoldable pub await_reply : ℕ → List (ℕ × ToClientData) → Outcome DaemonError ToClientData
await_reply id [] = err timed_out
await_reply id ((k, body) ∷ arrivals) =
    let rest = await_reply id arrivals in if k == id then ok body else rest

-- `ClientConnect::request`, with what arrives behind it.
unfoldable pub request : Bool → ℕ → List (ℕ × ToClientData) → ℕ × Outcome DaemonError ToClientData
request is_connected id arrivals =
    let sent = send is_connected id none in (sent.0, sent.1 >>= λ k. await_reply k arrivals)
