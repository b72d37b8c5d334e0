-- ===== src/Sessions.antt =====
-- vlink-tun/src/device/peer/session.rs: the sessions of a device (`SessionIndex`) and the four
-- slots of a peer (`ActiveSession`). The hash maps are functions. The registry is shared by every
-- peer: the field `index` holds its state when the operation starts, the other peers' sessions
-- included. The locks are held for the whole operation.
pub mod Registry
pub mod Slots
pub mod Peer
pub mod Operations
mod Examples
use vlink.Prelude.{
  ℕ, ◌+◌, ◌%◌, ◌^◌, Bool, true, false, not, ◌&&◌, ◌||◌, List, Option, none, some, ◌==◌,
  if◌then◌else◌,
}
use vlink.Outcome.{Outcome, ok, panic, ◌>>=◌}
use vlink.Bytes.{bytes_eq}
use vlink.Protocol.{Error}
use vlink.Noise.Crypto.{PeerStaticSecret}
use vlink.Replay.{NonceFilter}

-- A clone shares `sender_nonce` and `nonce_filter`; no operation on the registry reads them. The two
-- ciphers are their keys.
pub record Session : Type 0 where
  pub secret : PeerStaticSecret
  pub sender_index : ℕ
  pub sender_nonce : ℕ
  pub sender_key : List ℕ
  pub receiver_index : ℕ
  pub receiver_key : List ℕ
  pub nonce_filter : NonceFilter
  pub created_at : ℕ

pub record SessionIndex : Type 0 where
  pub index : ℕ
  pub indexes : ℕ → Option Session
  pub keys : List ℕ → Option (ℕ → Bool)

-- `SessionIndex::new`, with the random first index.
unfoldable pub new_index : ℕ → SessionIndex
new_index start = record { index = start; indexes = λ i. none; keys = λ k. none }

unfoldable pub next_index : SessionIndex → ℕ × SessionIndex
next_index r = (r.index, record r { index = (r.index + 1) % 2 ^ 32 })

-- Whether the set of a key, if it has one, holds an index.
abbrev pub has : Option (ℕ → Bool) → ℕ → Bool
has none i = false
has (some set) i = set i

unfoldable pub insert : SessionIndex → Session → SessionIndex
insert r s = record r {
  keys = λ k.
      if bytes_eq k s.secret.public
      then some (λ i. i == s.sender_index || has (r.keys k) i)
      else r.keys k;
  indexes = λ i. if i == s.sender_index then some s else r.indexes i;
}

unfoldable pub get_by_index : SessionIndex → ℕ → Option Session
get_by_index r i = r.indexes i

-- `keys.get_mut(key).unwrap().remove(index)`
unfoldable pub forget : SessionIndex → List ℕ → ℕ → Outcome Error SessionIndex
forget r key index = elim (r.keys key) [
  | none ↦ panic
  | some set ↦ ok (record r {
    keys = λ k. if bytes_eq k key then some (λ i. not (i == index) && set i) else r.keys k;
  })
]

-- The session removed is the registered one, not the argument.
unfoldable pub remove : SessionIndex → Session → Outcome Error (SessionIndex × Option Session)
unfolding forget
remove r s = elim (r.indexes s.sender_index) [
  | none ↦ ok (r, none)
  | some found ↦
      forget (record r { indexes = λ i. if i == s.sender_index then none else r.indexes i })
        found.secret.public found.sender_index
      >>= λ left. ok (left, some found)
]

unfoldable pub remove_by_key : SessionIndex → List ℕ → SessionIndex
remove_by_key r key = record r {
  indexes = λ i. if has (r.keys key) i then none else r.indexes i;
  keys = λ k. if bytes_eq k key then none else r.keys k;
}

unfoldable pub clear : SessionIndex → SessionIndex
clear r = record r { indexes = λ i. none; keys = λ k. none }

pub record ActiveSession : Type 0 where
  pub index : SessionIndex
  pub uninit : Option Session
  pub previous : Option Session
  pub current : Option Session
  pub next : Option Session

unfoldable pub new_active : SessionIndex → ActiveSession
new_active r = record { index = r; uninit = none; previous = none; current = none; next = none }

abbrev pub activate : ActiveSession → Session → ActiveSession
activate a s = record a { index = insert a.index s }

-- `deactivate` of what the slot held, if anything.
unfoldable pub deactivate : ActiveSession → Option Session → Outcome Error ActiveSession
deactivate a none = ok a
deactivate a (some s) = remove a.index s >>= λ r. ok (record a { index = r.0 })

abbrev pub deactivate_uninit : ActiveSession → Outcome Error ActiveSession
deactivate_uninit a = deactivate (record a { uninit = none }) a.uninit

abbrev pub deactivate_previous : ActiveSession → Outcome Error ActiveSession
deactivate_previous a = deactivate (record a { previous = none }) a.previous

abbrev pub deactivate_next : ActiveSession → Outcome Error ActiveSession
deactivate_next a = deactivate (record a { next = none }) a.next

unfoldable pub prepare_uninit : ActiveSession → Session → Outcome Error ActiveSession
prepare_uninit a s = deactivate_uninit a >>= λ b. ok (record (activate b s) { uninit = some s })

unfoldable pub same_index : Option Session → Session → Bool
same_index none s = false
same_index (some t) s = t.sender_index == s.sender_index

unfoldable pub complete_uninit : ActiveSession → Session → Outcome Error (ActiveSession × Bool)
complete_uninit a s =
    if same_index a.uninit s
    then (deactivate_uninit a >>= λ b. deactivate_previous (activate b s) >>= λ c.
        ok (record c { previous = c.current; current = some s }, true))
    else ok (a, false)

-- The next session, when there is one, moves to `previous`.
unfoldable pub make_room : ActiveSession → Outcome Error ActiveSession
make_room a = elim a.next [
  | none ↦ ok a
  | some next ↦
      deactivate_previous (record a { next = none }) >>= λ b. ok (record b { previous = some next })
]

unfoldable pub prepare_next : ActiveSession → Session → Outcome Error ActiveSession
prepare_next a s = make_room a >>= λ b. ok (record (activate b s) { next = some s })

unfoldable pub complete_next : ActiveSession → Session → Outcome Error (ActiveSession × Bool)
complete_next a s =
    if same_index a.next s
    then (deactivate_next a >>= λ b. deactivate_previous b >>= λ c.
        ok (record (activate c s) { previous = c.current; current = some s }, true))
    else ok (a, false)
