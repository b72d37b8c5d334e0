-- ===== src/Head/Keeping.antt =====
-- A handshake of headlink/src/client.rs leaves the connections of the other clients.
use vlink.Prelude.{
  ℕ, ◌==◌, false, List, Option, none, some, ◌≡◌, refl, ap, ◌∙◌, inl, inr, Option-cases,
}
use vlink.Outcome.{ok, err, panic}
use vlink.Head.Clients.{
  Rows, Server, Step, and_then, set_client_id, find_network, get_network, handshake0,
}
use vlink.Head.Served.{get_network-clients, find_network-clients}

-- The connection of another client is kept through the steps of a handshake.
and_then-Keeps {ℓ κ} :
    {A : Type ℓ} {B : Type κ} (step : Step A) (f : Server → A → Step B) (a : ℕ)
    {c : Option (Option (List ℕ × ℕ))}
    → step.0.clients a ≡ c
    → ((s : Server) (x : A) → s.clients a ≡ c → (f s x).0.clients a ≡ c)
    → (and_then step f).0.clients a ≡ c
and_then-Keeps (s, ok x) f a h keeps = keeps s x h
and_then-Keeps (s, err e) f a h keeps = h
and_then-Keeps (s, panic) f a h keeps = h

set_client_id-Keeps :
    (rows : Rows) (s : Server) (addr a : ℕ) (name : List ℕ × ℕ)
    → (a == addr) ≡ false
    → (set_client_id rows s addr name).0.clients a ≡ s.clients a
unfolding set_client_id
set_client_id-Keeps rows s addr a name other = elim (Option-cases (s.clients addr)) [
  | inl e ↦ rw (e, set_client_id) refl
  | inr (none, e) ↦ rw (e, set_client_id, other) refl
  | inr (some old, e) ↦ rw (e, set_client_id) refl
]

pub handshake0-Keeps :
    (rows : Rows) (s : Server) (addr a : ℕ) (key : List ℕ) (token : Option (List ℕ))
    → (a == addr) ≡ false
    → (handshake0 rows s addr key token).0.clients a ≡ s.clients a
unfolding handshake0
handshake0-Keeps rows s addr a key token other =
    and_then-Keeps (find_network rows s key token) _ a
      (ap (λ c. c a) (find_network-clients rows s key token))
      (λ found id h.
        and_then-Keeps (set_client_id rows found addr (key, id)) _ a
          (set_client_id-Keeps rows found addr a (key, id) other ∙ h)
          (λ named u k.
            and_then-Keeps (get_network rows named id) _ a
              (ap (λ c. c a) (get_network-clients rows named id) ∙ k) (λ cached network l. l)))
