-- ===== src/Sessions/Operations.antt =====
-- The four operations on the slots of a peer together: what each leaves in them, and the registry that
-- follows.
use vlink.Prelude.{ℕ, true, Option, none, some, ◌≡◌, refl, ap, ◌∙◌, List, [], ◌∷◌}
use vlink.Outcome.{Outcome, ok, ◌>>=◌}
use vlink.Protocol.{Error}
use vlink.Sessions.{
  Session, ActiveSession, get_by_index, prepare_uninit, same_index, complete_uninit, prepare_next,
  complete_next,
}
use vlink.Sessions.Peer.{
  IsHeld, slots, displaced, prepare_uninit-IsHeld, complete_uninit-IsHeld, prepare_next-IsHeld,
  complete_next-IsHeld,
}

pub data Operation : Type 0 where
  prepares_uninit completes_uninit prepares_next completes_next : Session → Operation

abbrev pub apply : Operation → ActiveSession → Outcome Error ActiveSession
apply (prepares_uninit s) a = prepare_uninit a s
apply (completes_uninit s) a = complete_uninit a s >>= λ r. ok r.0
apply (prepares_next s) a = prepare_next a s
apply (completes_next s) a = complete_next a s >>= λ r. ok r.0

-- A session is prepared under a free index, and completed where it waits.
abbrev pub IsAllowed : Operation → ActiveSession → Type 0
IsAllowed (prepares_uninit s) a = get_by_index a.index s.sender_index ≡ none
IsAllowed (completes_uninit s) a = same_index a.uninit s ≡ true
IsAllowed (prepares_next s) a = get_by_index a.index s.sender_index ≡ none
IsAllowed (completes_next s) a = same_index a.next s ≡ true

-- The session that the preparation of an answer leaves in `previous`.
abbrev pub moved_back : Option Session → Option Session → Option Session
moved_back previous none = previous
moved_back previous (some next) = some next

displaced-moved_back :
    (rest : ℕ → Option Session) (a : ActiveSession) (s : Session) (o : Option Session)
    → displaced rest a s o ≡ moved_back a.previous o
displaced-moved_back rest a s none = refl
displaced-moved_back rest a s (some next) = refl

-- The slots `uninit`, `previous`, `current` and `next` behind an operation.
abbrev pub slots_after : Operation → ActiveSession → List (Option Session)
slots_after (prepares_uninit s) a = some s ∷ a.previous ∷ a.current ∷ a.next ∷ []
slots_after (completes_uninit s) a = none ∷ a.current ∷ some s ∷ a.next ∷ []
slots_after (prepares_next s) a = a.uninit ∷ moved_back a.previous a.next ∷ a.current ∷ some s ∷ []
slots_after (completes_next s) a = a.uninit ∷ a.current ∷ some s ∷ none ∷ []

-- Where the registry holds exactly the sessions of the four slots and those of the other peers: the
-- preparation of a session under a free index, and the completion of one that waits in its slot,
-- succeed; a prepared initiation takes the place of the one before it, a prepared answer lets the
-- one before it take that of the previous session, and a completed session becomes the current one
-- with the current one behind it; and the registry again holds exactly the sessions of the slots and
-- those of the others.
pub apply-IsHeld :
    (rest : ℕ → Option Session) (a : ActiveSession) (op : Operation)
    → IsHeld rest a
    → IsAllowed op a
    → (b : ActiveSession) × (apply op a ≡ ok b) × IsHeld rest b × (slots b ≡ slots_after op a)
apply-IsHeld rest a (prepares_uninit s) h allowed = prepare_uninit-IsHeld rest a s h allowed
apply-IsHeld rest a (completes_uninit s) h allowed =
    let (b, e, held, at) = complete_uninit-IsHeld rest a s h allowed in
    (b, ap (λ m. m >>= λ r. ok r.0) e, held, at)
apply-IsHeld rest a (prepares_next s) h allowed =
    let (b, e, held, at) = prepare_next-IsHeld rest a s h allowed in
    let back = displaced-moved_back rest a s a.next in
    (b, e, held, at ∙ ap (λ o. a.uninit ∷ o ∷ a.current ∷ some s ∷ []) back)
apply-IsHeld rest a (completes_next s) h allowed =
    let (b, e, held, at) = complete_next-IsHeld rest a s h allowed in
    (b, ap (λ m. m >>= λ r. ok r.0) e, held, at)
