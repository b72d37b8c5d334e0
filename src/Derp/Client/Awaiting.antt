-- ===== src/Derp/Client/Awaiting.antt =====
-- Where the handshake of the DERP client succeeds.
use vlink.Prelude.{ℕ, List, [], ◌∷◌, ◌++◌, ◌≡◌, ◌↔◌, ◌⊎◌, inl, inr, refl, sym, ap, ◌∙◌}
use vlink.Outcome.{Outcome, ok, err, panic, ok_inj}
use vlink.Derp.{
  Error, DerpResponse, ws, frame_keep_alive_response, test, frame_server_key_response,
  frame_recv_packet_response, frame_peer_gone_packet, server_info, ClientInfo,
}
use vlink.Derp.Client.{ClientError, await_handshake}

-- What comes before the information of the server.
abbrev pub IsQuiet : List (Outcome Error DerpResponse) → Type 0
IsQuiet [] = Unit {0}
IsQuiet (ok ws ∷ stream) = IsQuiet stream
IsQuiet (ok (frame_server_key_response key) ∷ stream) = IsQuiet stream
IsQuiet (ok (server_info v) ∷ stream) = ⊥
IsQuiet (ok frame_keep_alive_response ∷ stream) = IsQuiet stream
IsQuiet (ok test ∷ stream) = IsQuiet stream
IsQuiet (ok (frame_recv_packet_response src bytes) ∷ stream) = IsQuiet stream
IsQuiet (ok (frame_peer_gone_packet src reason) ∷ stream) = IsQuiet stream
IsQuiet (err e ∷ stream) = ⊥
IsQuiet (panic ∷ stream) = ⊥

-- A stream without an error up to the information of the server: the handshake succeeds there, with the
-- rest of the stream.
await_handshake-informed :
    (info : ClientInfo) (before rest : List (Outcome Error DerpResponse)) (v : ℕ)
    → IsQuiet before
    → (await_handshake info (before ++ ok (server_info v) ∷ rest)).1 ≡ ok rest
unfolding await_handshake
await_handshake-informed info [] rest v h = refl
await_handshake-informed info (ok ws ∷ before) rest v h =
    await_handshake-informed info before rest v h
await_handshake-informed info (ok (frame_server_key_response key) ∷ before) rest v h =
    await_handshake-informed info before rest v h
await_handshake-informed info (ok (server_info w) ∷ before) rest v h = absurd h
await_handshake-informed info (ok frame_keep_alive_response ∷ before) rest v h =
    await_handshake-informed info before rest v h
await_handshake-informed info (ok test ∷ before) rest v h =
    await_handshake-informed info before rest v h
await_handshake-informed info (ok (frame_recv_packet_response src bytes) ∷ before) rest v h =
    await_handshake-informed info before rest v h
await_handshake-informed info (ok (frame_peer_gone_packet src reason) ∷ before) rest v h =
    await_handshake-informed info before rest v h
await_handshake-informed info (err e ∷ before) rest v h = absurd h
await_handshake-informed info (panic ∷ before) rest v h = absurd h

-- A stream without an error that ends before the information of the server: the handshake succeeds too.
await_handshake-ended :
    (info : ClientInfo) (stream : List (Outcome Error DerpResponse))
    → IsQuiet stream
    → (await_handshake info stream).1 ≡ ok []
unfolding await_handshake
await_handshake-ended info [] h = refl
await_handshake-ended info (ok ws ∷ stream) h = await_handshake-ended info stream h
await_handshake-ended info (ok (frame_server_key_response key) ∷ stream) h =
    await_handshake-ended info stream h
await_handshake-ended info (ok (server_info w) ∷ stream) h = absurd h
await_handshake-ended info (ok frame_keep_alive_response ∷ stream) h =
    await_handshake-ended info stream h
await_handshake-ended info (ok test ∷ stream) h = await_handshake-ended info stream h
await_handshake-ended info (ok (frame_recv_packet_response src bytes) ∷ stream) h =
    await_handshake-ended info stream h
await_handshake-ended info (ok (frame_peer_gone_packet src reason) ∷ stream) h =
    await_handshake-ended info stream h
await_handshake-ended info (err e ∷ stream) h = absurd h
await_handshake-ended info (panic ∷ stream) h = absurd h

abbrev pub Responses : Type 0
Responses = List (Outcome Error DerpResponse)

-- The stream is quiet up to the information of the server, with a rest behind it; or it is quiet and ends.
abbrev pub IsInformed : Responses → Responses → Type 0
IsInformed stream rest =
    (before : Responses) × (v : ℕ) × IsQuiet before × (stream ≡ before ++ ok (server_info v) ∷ rest)

abbrev pub IsSilent : Responses → Responses → Type 0
IsSilent stream rest = IsQuiet stream × (rest ≡ [])

IsInformed-cons :
    (r : Outcome Error DerpResponse) (stream rest : Responses)
    → ((s : Responses) → IsQuiet s → IsQuiet (r ∷ s))
    → IsInformed stream rest ⊎ IsSilent stream rest
    → IsInformed (r ∷ stream) rest ⊎ IsSilent (r ∷ stream) rest
IsInformed-cons r stream rest quiet (inl (before, v, h, e)) =
    inl (r ∷ before, v, quiet before h, ap (◌∷◌ r) e)
IsInformed-cons r stream rest quiet (inr (h, e)) = inr (quiet stream h, e)

err-ne-ok :
    {a : Responses} {e : ClientError} → ◌≡◌ {A = Outcome ClientError Responses} (err e) (ok a) → ⊥
err-ne-ok h = cc

panic-ne-ok : {a : Responses} → ◌≡◌ {A = Outcome ClientError Responses} panic (ok a) → ⊥
panic-ne-ok h = cc

await_handshake-heard :
    (info : ClientInfo) (stream rest : Responses)
    → (await_handshake info stream).1 ≡ ok rest
    → IsInformed stream rest ⊎ IsSilent stream rest
unfolding await_handshake
await_handshake-heard info [] rest h = inr (tt, sym (ok_inj h))
await_handshake-heard info (ok ws ∷ stream) rest h =
    IsInformed-cons (ok ws) stream rest (λ s q. q) (await_handshake-heard info stream rest h)
await_handshake-heard info (ok (frame_server_key_response key) ∷ stream) rest h =
    IsInformed-cons (ok (frame_server_key_response key)) stream rest (λ s q. q)
      (await_handshake-heard info stream rest h)
await_handshake-heard info (ok (server_info v) ∷ stream) rest h =
    inl ([], v, tt, ap (◌∷◌ (ok (server_info v))) (ok_inj h))
await_handshake-heard info (ok frame_keep_alive_response ∷ stream) rest h =
    IsInformed-cons (ok frame_keep_alive_response) stream rest (λ s q. q)
      (await_handshake-heard info stream rest h)
await_handshake-heard info (ok test ∷ stream) rest h =
    IsInformed-cons (ok test) stream rest (λ s q. q) (await_handshake-heard info stream rest h)
await_handshake-heard info (ok (frame_recv_packet_response src bytes) ∷ stream) rest h =
    IsInformed-cons (ok (frame_recv_packet_response src bytes)) stream rest (λ s q. q)
      (await_handshake-heard info stream rest h)
await_handshake-heard info (ok (frame_peer_gone_packet src reason) ∷ stream) rest h =
    IsInformed-cons (ok (frame_peer_gone_packet src reason)) stream rest (λ s q. q)
      (await_handshake-heard info stream rest h)
await_handshake-heard info (err e ∷ stream) rest h = absurd (err-ne-ok h)
await_handshake-heard info (panic ∷ stream) rest h = absurd (panic-ne-ok h)

-- The handshake of the DERP client succeeds exactly where the stream comes to the information of the
-- server without an error and without an earlier one, and then leaves the rest of the stream; or
-- where the stream ends without either, and then nothing is left.
pub await_handshake-ok_iff :
    (info : ClientInfo) (stream rest : Responses)
    → ((await_handshake info stream).1 ≡ ok rest) ↔ (IsInformed stream rest ⊎ IsSilent stream rest)
await_handshake-ok_iff info stream rest = (
  await_handshake-heard info stream rest,
  λ h. elim h [
    | inl (before, v, quiet, e) ↦
        ap (λ s. (await_handshake info s).1) e ∙ await_handshake-informed info before rest v quiet
    | inr (quiet, e) ↦ await_handshake-ended info stream quiet ∙ ap ok (sym e)
  ],
)
