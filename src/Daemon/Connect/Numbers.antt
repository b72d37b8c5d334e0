-- ===== src/Daemon/Connect/Numbers.antt =====
-- The numbers of requests and of what the head server sends on its own.
use vlink.Prelude.{
  ℕ, suc, ◌+◌, ◌<◌, ◌≤◌, ◌^◌, ◌==◌, true, false, List, [], ◌∷◌, ◌++◌, Option, none, some, ◌≡◌, ◌≢◌,
  ◌⊎◌, inr, refl, ap, ◌∙◌, ==_refl, ==_ne, arith,
}
use vlink.Prelude.Words.{add64}
use vlink.Outcome.{ok}
use vlink.Head.{ToClientData}
use vlink.Daemon.Connect.{next_id, to_client_handler, to_server_handler, send, await_reply, request}

-- How many of the messages are the server's own, and that none of them answers a request.
abbrev pub own : List (Option ℕ × ToClientData) → ℕ
own [] = 0
own ((none, body) ∷ queue) = suc (own queue)
own ((some k, body) ∷ queue) = own queue

abbrev pub IsOther : ℕ → List (Option ℕ × ToClientData) → Type 0
IsOther id [] = Unit {0}
IsOther id ((none, body) ∷ queue) = IsOther id queue
IsOther id ((some k, body) ∷ queue) = (k ≢ id) × IsOther id queue

await_reply-past :
    (id counter : ℕ) (before rest : List (Option ℕ × ToClientData))
    → counter + own before < 2 ^ 64
    → (id ≤ counter) ⊎ (counter + own before < id)
    → IsOther id before
    → await_reply id (to_client_handler counter (before ++ rest))
      ≡ await_reply id (to_client_handler (counter + own before) rest)
unfolding await_reply to_client_handler next_id
await_reply-past id counter [] rest small apart other =
    ap (λ c. await_reply id (to_client_handler c rest)) {x = counter} {y = counter + 0}
      (omega arith)
await_reply-past id counter ((some k, body) ∷ before) rest small apart other =
    rw (==_ne k id other.0) (await_reply-past id counter before rest small apart other.1)
await_reply-past id counter ((none, body) ∷ before) rest small apart other =
    let e : add64 counter 1 ≡ suc counter = omega arith in
    let ne : (suc counter == id) ≡ false = ==_ne (suc counter) id (λ same. omega arith) in
    let next : (id ≤ suc counter) ⊎ (suc counter + own before < id) = omega arith in
    let rec = await_reply-past id (suc counter) before rest (omega arith) next other in
    rw (e, ne)
      (rec
        ∙ ap (λ c. await_reply id (to_client_handler c rest)) {x = suc counter + own before}
            {y = counter + suc (own before)} (omega arith))

await_reply-here :
    (id counter : ℕ) (id_op : Option ℕ) (body : ToClientData)
    (rest : List (Option ℕ × ToClientData))
    → (next_id counter id_op).1 ≡ id
    → await_reply id (to_client_handler counter ((id_op, body) ∷ rest)) ≡ ok body
unfolding await_reply to_client_handler
await_reply-here id counter id_op body rest e = rw (e, ==_refl id) refl

request-sent :
    (id : ℕ) (arrivals : List (ℕ × ToClientData))
    → (request true id arrivals).1 ≡ await_reply (add64 id 1) arrivals
unfolding request send to_server_handler next_id
request-sent id arrivals = refl

-- Where the server has given out the numbers up to `counter`, its own messages before the answer
-- stay below the number of the request or above it, none of its answers before has that number, and
-- its numbers fit 64 bits: `request` returns the answer to it.
pub request-answered :
    (id counter : ℕ) (before after : List (Option ℕ × ToClientData)) (body : ToClientData)
    → counter + own before < 2 ^ 64
    → (add64 id 1 ≤ counter) ⊎ (counter + own before < add64 id 1)
    → IsOther (add64 id 1) before
    → (request true id (to_client_handler counter (before ++ (some (add64 id 1), body) ∷ after))).1
      ≡ ok body
unfolding next_id
request-answered id counter before after body small apart other =
    request-sent id _
    ∙ await_reply-past (add64 id 1) counter before ((some (add64 id 1), body) ∷ after) small apart
        other
    ∙ await_reply-here (add64 id 1) (counter + own before) (some (add64 id 1)) body after refl

-- Where the server sends a message of its own whose number is that of the request, and none of its
-- answers before has that number, `request` returns this message, whatever the server answers after
-- it, where the numbers of the server fit 64 bits.
pub request-mistaken :
    (id counter : ℕ) (before after : List (Option ℕ × ToClientData)) (notice : ToClientData)
    → counter + own before + 1 < 2 ^ 64
    → add64 id 1 ≡ counter + own before + 1
    → IsOther (add64 id 1) before
    → (request true id (to_client_handler counter (before ++ (none, notice) ∷ after))).1 ≡ ok notice
unfolding next_id
request-mistaken id counter before after notice small same other =
    request-sent id _
    ∙ await_reply-past (add64 id 1) counter before ((none, notice) ∷ after) (omega arith)
        (inr (omega arith)) other
    ∙ await_reply-here (add64 id 1) (counter + own before) none notice after (omega arith)
