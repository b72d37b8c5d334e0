-- ===== src/Sessions/Peer.antt =====
-- The operations on a peer's slots: what each leaves in them, and that the registry follows.
use vlink.Prelude.{ℕ, true, Option, none, some, ◌≡◌, refl, sym, ap, ◌∙◌, List, [], ◌∷◌, arith}
use vlink.Outcome.{Outcome, ok}
use vlink.Protocol.{Error}
use vlink.Sessions.{
  Session, SessionIndex, ActiveSession, insert, get_by_index, prepare_uninit, same_index,
  complete_uninit, make_room, prepare_next, complete_next,
}
use vlink.Sessions.Slots.{
  at, size, count, IsRegistry, IsAlike-swap, IsAlike-cons, IsAlike-trans, IsAlike-sym, IsAlike-move,
  IsAlike-empty, reorder, count-first, registered, deactivated, count_same,
}

-- The registry holds the sessions of the four slots and the others', under distinct indexes.
abbrev pub IsHeld : (ℕ → Option Session) → ActiveSession → Type 0
IsHeld rest a = IsRegistry rest a.index (a.uninit ∷ a.previous ∷ a.current ∷ a.next ∷ [])

abbrev pub slots : ActiveSession → List (Option Session)
slots a = a.uninit ∷ a.previous ∷ a.current ∷ a.next ∷ []

module _ (rest : ℕ → Option Session) (a : ActiveSession) (s : Session) where
  fresh_count :
      IsHeld rest a
      → get_by_index a.index s.sender_index ≡ none
      → count rest (slots a) s.sender_index ≡ 0
  unfolding get_by_index
  fresh_count h fresh =
      count-first rest (slots a) s.sender_index (sym (h.found s.sender_index) ∙ fresh)

  -- `prepare_uninit` of a session under a free index replaces the one that waited in `uninit`, which
  -- is unregistered. The registry still holds exactly the sessions of the slots and those of the
  -- others, and nothing panics.
  pub prepare_uninit-IsHeld :
      IsHeld rest a
      → get_by_index a.index s.sender_index ≡ none
      → (b : ActiveSession) × (prepare_uninit a s ≡ ok b)
        × IsHeld rest b
        × (slots b ≡ some s ∷ a.previous ∷ a.current ∷ a.next ∷ [])
  unfolding prepare_uninit
  prepare_uninit-IsHeld h fresh =
      let others = a.previous ∷ a.current ∷ a.next ∷ [] in
      let (r, e, g) = deactivated rest (record a { uninit = none }) a.uninit others h in
      (
        record a { index = insert r s; uninit = some s },
        rw (e) refl,
        registered rest r others s g (omega (arith, fresh_count h fresh)),
        refl,
      )

  -- With a session of the index that waits in `uninit`, `complete_uninit` makes it the current one,
  -- the current one the previous one, and unregisters the old previous one; the registry still holds
  -- exactly the sessions of the slots and those of the others, and nothing panics.
  pub complete_uninit-IsHeld :
      IsHeld rest a
      → same_index a.uninit s ≡ true
      → (b : ActiveSession) × (complete_uninit a s ≡ ok (b, true))
        × IsHeld rest b
        × (slots b ≡ none ∷ a.current ∷ some s ∷ a.next ∷ [])
  unfolding complete_uninit
  complete_uninit-IsHeld h same =
      let p = a.previous in
      let c = a.current in
      let n = a.next in
      let (r, e, g) = deactivated rest (record a { uninit = none }) a.uninit (p ∷ c ∷ n ∷ []) h in
      let free = count_same rest a.uninit (p ∷ c ∷ n ∷ []) s (h.apart s.sender_index) same in
      let added = registered rest r (p ∷ c ∷ n ∷ []) s g free in
      let ahead =
        reorder rest (insert r s) (some s ∷ p ∷ c ∷ n ∷ []) (p ∷ some s ∷ c ∷ n ∷ [])
          (IsAlike-swap rest (some s) p (c ∷ n ∷ [])) added in
      let (q, d, k) =
        deactivated rest (record a { uninit = none; index = insert r s; previous = none }) p
          (some s ∷ c ∷ n ∷ []) ahead in
      (
        record a { index = q; uninit = none; previous = c; current = some s },
        rw (same, e, d) refl,
        reorder rest q (some s ∷ c ∷ n ∷ []) (none ∷ c ∷ some s ∷ n ∷ [])
            (IsAlike-trans rest (some s ∷ c ∷ n ∷ []) (c ∷ some s ∷ n ∷ [])
              (none ∷ c ∷ some s ∷ n ∷ []) (IsAlike-swap rest (some s) c (n ∷ []))
              (IsAlike-sym rest (none ∷ c ∷ some s ∷ n ∷ []) (c ∷ some s ∷ n ∷ [])
                (IsAlike-empty rest [] (c ∷ some s ∷ n ∷ []))))
            k,
        refl,
      )

  -- What `make_room` leaves: the waiting session, if any, is the previous one.
  abbrev pub displaced : Option Session → Option Session
  displaced none = a.previous
  displaced (some next) = some next

  room :
      (n : Option Session)
      → a.next ≡ n
      → IsHeld rest a
      → (r : SessionIndex) × (make_room a
          ≡ ok (record a { index = r; previous = displaced n; next = none }))
        × IsRegistry rest r (a.uninit ∷ displaced n ∷ a.current ∷ [])
  unfolding make_room
  room none e h =
      let u = a.uninit in
      let p = a.previous in
      let c = a.current in
      (
        a.index,
        rw (e, make_room)
            (ap {B = Outcome Error ActiveSession} (λ n. ok (record a { next = n })) e),
        reorder rest a.index (slots a) (u ∷ p ∷ c ∷ [])
            (rw (e) (IsAlike-empty rest (u ∷ p ∷ c ∷ []) [])) h,
      )
  room (some next) e h =
      let u = a.uninit in
      let p = a.previous in
      let c = a.current in
      let (r, d, g) =
        deactivated rest (record a { next = none; previous = none }) p (u ∷ c ∷ a.next ∷ [])
          (reorder rest a.index (slots a) (p ∷ u ∷ c ∷ a.next ∷ [])
            (IsAlike-swap rest u p (c ∷ a.next ∷ [])) h) in
      (
        r,
        rw (e, make_room, d) refl,
        reorder rest r (u ∷ c ∷ a.next ∷ []) (u ∷ some next ∷ c ∷ [])
            (rw (e) (
              IsAlike-cons rest u (c ∷ some next ∷ []) (some next ∷ c ∷ [])
                (IsAlike-swap rest c (some next) [])))
            g,
      )

  room_count :
      (n : Option Session)
      → a.next ≡ n
      → count rest (slots a) s.sender_index ≡ 0
      → count rest (a.uninit ∷ displaced n ∷ a.current ∷ []) s.sender_index ≡ 0
  room_count none e h = omega (arith, h)
  room_count (some next) e h =
      let same = ap (λ o. size (at o s.sender_index)) e in omega (arith, h, same)

  -- `prepare_next` of a session under a free index lets it wait in `next`. One that waited there
  -- becomes the previous one, and only then the old previous one is unregistered. The registry still
  -- holds exactly the sessions of the slots and those of the others, and nothing panics.
  pub prepare_next-IsHeld :
      IsHeld rest a
      → get_by_index a.index s.sender_index ≡ none
      → (b : ActiveSession) × (prepare_next a s ≡ ok b)
        × IsHeld rest b
        × (slots b ≡ a.uninit ∷ displaced a.next ∷ a.current ∷ some s ∷ [])
  unfolding prepare_next
  prepare_next-IsHeld h fresh =
      let u = a.uninit in
      let c = a.current in
      let p = displaced a.next in
      let (r, e, g) = room a.next refl h in
      let free = room_count a.next refl (fresh_count h fresh) in
      (
        record a { index = insert r s; previous = p; next = some s },
        rw (e) refl,
        reorder rest (insert r s) (some s ∷ u ∷ p ∷ c ∷ []) (u ∷ p ∷ c ∷ some s ∷ [])
            (IsAlike-move rest (some s) (u ∷ p ∷ c ∷ []) [])
            (registered rest r (u ∷ p ∷ c ∷ []) s g free),
        refl,
      )

  -- With a session of the index that waits in `next`, `complete_next` makes it the current one, the
  -- current one the previous one, and unregisters the old previous one; the registry still holds
  -- exactly the sessions of the slots and those of the others, and nothing panics.
  pub complete_next-IsHeld :
      IsHeld rest a
      → same_index a.next s ≡ true
      → (b : ActiveSession) × (complete_next a s ≡ ok (b, true))
        × IsHeld rest b
        × (slots b ≡ a.uninit ∷ a.current ∷ some s ∷ none ∷ [])
  unfolding complete_next
  complete_next-IsHeld h same =
      let u = a.uninit in
      let p = a.previous in
      let c = a.current in
      let n = a.next in
      let ahead =
        reorder rest a.index (slots a) (n ∷ u ∷ p ∷ c ∷ [])
          (IsAlike-sym rest (n ∷ u ∷ p ∷ c ∷ []) (slots a)
            (IsAlike-move rest n (u ∷ p ∷ c ∷ []) []))
          h in
      let (r, e, g) = deactivated rest (record a { next = none }) n (u ∷ p ∷ c ∷ []) ahead in
      let (q, d, k) =
        deactivated rest (record a { next = none; index = r; previous = none }) p (u ∷ c ∷ [])
          (reorder rest r (u ∷ p ∷ c ∷ []) (p ∷ u ∷ c ∷ []) (IsAlike-swap rest u p (c ∷ [])) g) in
      let free = count_same rest n (u ∷ p ∷ c ∷ []) s (ahead.apart s.sender_index) same in
      let added = registered rest q (u ∷ c ∷ []) s k (omega (arith, free)) in
      (
        record a { index = insert q s; previous = c; current = some s; next = none },
        rw (same, e, d) refl,
        reorder rest (insert q s) (some s ∷ u ∷ c ∷ []) (u ∷ c ∷ some s ∷ none ∷ [])
            (IsAlike-trans rest (some s ∷ u ∷ c ∷ []) (u ∷ c ∷ some s ∷ [])
              (u ∷ c ∷ some s ∷ none ∷ []) (IsAlike-move rest (some s) (u ∷ c ∷ []) [])
              (IsAlike-sym rest (u ∷ c ∷ some s ∷ none ∷ []) (u ∷ c ∷ some s ∷ [])
                (IsAlike-empty rest (u ∷ c ∷ some s ∷ []) [])))
            added,
        refl,
      )
