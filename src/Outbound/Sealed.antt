-- ===== src/Outbound/Sealed.antt =====
-- What the rounds of the outbound loop make of their data: the data sealed under a session, the nonces in order.
use vlink.Prelude.{ℕ, ◌+◌, List, [], ◌∷◌, ◌++◌, Option, none, some, ◌≡◌, ◌⊎◌}
use vlink.Protocol.{TransportData, to_bytes}
use vlink.Noise.Crypto.{Primitives, nonce_of}
use vlink.Sessions.{Session}
use vlink.Peer.{Effect, sent, no_endpoint}

-- A packet on its way to an endpoint, if there is one.
abbrev pub leaving : Option ℕ → List ℕ → TransportData → List Effect
leaving to key q = elim to [
  | some endpoint ↦ sent endpoint (to_bytes q) ∷ []
  | none ↦ no_endpoint key ∷ []
]

module _ (p : Primitives) where
  -- What a round leaves of its data, for a peer of an endpoint and a key: nothing where the data cannot be
  -- sealed under the nonce, and otherwise the packet with the nonce for its counter and the sealed data, or a
  -- notice that there is no endpoint.
  abbrev pub IsSealed : Option ℕ → List ℕ → Session → ℕ → List ℕ → List Effect → Type 0
  IsSealed to key s n bytes es =
      ((p.seal s.sender_key (nonce_of n) bytes [] ≡ none) × (es ≡ []))
      ⊎ ((sealed : List ℕ) × (p.seal s.sender_key (nonce_of n) bytes [] ≡ some sealed)
          × (es
              ≡ leaving to key
                  (record { receiver_index = s.receiver_index; counter = n; payload = sealed })))

  -- The rounds, each with a nonce of its own.
  abbrev pub IsSealing : Option ℕ → List ℕ → Session → ℕ → List (List ℕ × ℕ) → List Effect → Type 0
  IsSealing to key s n [] es = es ≡ []
  IsSealing to key s n ((bytes, now) ∷ rounds) es =
      (first rest : List Effect) × (es ≡ first ++ rest)
      × IsSealed to key s n bytes first
      × IsSealing to key s (n + 1) rounds rest
