-- ===== src/Sessions/Registry.antt =====
-- The registry of sessions: it stays consistent, so the `unwrap` in `remove` never fails.
use vlink.Prelude.{
  some_inj, none-some, ℕ, Bool, true, false, Option, none, some, ◌==◌, if◌then◌else◌, ◌≡◌, refl,
  sym, ap, ◌∙◌, List, ==_iff, arith, not, ◌&&◌, Bool-cases, inl, inr,
}
use vlink.Outcome.{Outcome, ok, ◌>>=◌}
use vlink.Bytes.{bytes_eq, bytes_eq_iff}
use vlink.Protocol.{Error}
use vlink.Sessions.{Session, SessionIndex, has, insert, get_by_index, forget, remove, remove_by_key}

-- Every registered session stands under its own index, and the set of its key holds that index.
abbrev pub IsConsistent : SessionIndex → Type 0
IsConsistent r =
    (i : ℕ) (s : Session)
    → r.indexes i ≡ some s
    → (s.sender_index ≡ i) × (has (r.keys s.secret.public) i ≡ true)

bytes_eq_refl : (k : List ℕ) → bytes_eq k k ≡ true
bytes_eq_refl k = (bytes_eq_iff k k).1 refl

-- A set that holds the index holds it after `insert`.
has-insert :
    (r : SessionIndex) (s : Session) (k : List ℕ) (i : ℕ)
    → has (r.keys k) i ≡ true
    → has ((insert r s).keys k) i ≡ true
unfolding insert
has-insert r s k i h = ground (arith, h)

pub insert-IsConsistent :
    (r : SessionIndex) (s : Session) → IsConsistent r → IsConsistent (insert r s)
unfolding insert
insert-IsConsistent r s con i t h = elim (Bool-cases (i == s.sender_index)) [
  | inl e ↦
      let p : s ≡ t = some_inj (sym (ap (λ b. if b then some s else r.indexes i) e) ∙ h) in
      rw (sym p) (sym ((==_iff i s.sender_index).0 e), rw (bytes_eq_refl s.secret.public, e) refl)
  | inr ne ↦
      let old : r.indexes i ≡ some t = sym (ap (λ b. if b then some s else r.indexes i) ne) ∙ h in
      ((con i t old).0, has-insert r s t.secret.public i (con i t old).1)
]

-- What `remove` leaves of a registered session's registry.
abbrev pub removed : SessionIndex → Session → SessionIndex
removed r found = record r {
  indexes = λ i. if i == found.sender_index then none else r.indexes i;
  keys = λ k.
      if bytes_eq k found.secret.public
      then some (λ i. not (i == found.sender_index) && has (r.keys found.secret.public) i)
      else r.keys k;
}

-- `remove` does nothing to an index that is not registered.
pub remove_absent :
    (r : SessionIndex) (s : Session) → r.indexes s.sender_index ≡ none → remove r s ≡ ok (r, none)
unfolding remove
remove_absent r s h = rw (h, remove) refl

has-some : (o : Option (ℕ → Bool)) (i : ℕ) → has o i ≡ true → o ≡ some (has o)
has-some none i h = cc
has-some (some set) i h = refl

forget-eq :
    (r : SessionIndex) (key : List ℕ) (i : ℕ) (set : ℕ → Bool)
    → r.keys key ≡ some set
    → forget r key i
      ≡ ok (record r {
        keys = λ k. if bytes_eq k key then some (λ j. not (j == i) && set j) else r.keys k;
      })
unfolding forget
forget-eq r key i set h = rw (h, forget) refl

-- In a consistent registry `remove` gives the session that is registered under the index back and
-- takes it out of both maps; the `unwrap` in it does not panic.
pub remove-found :
    (r : SessionIndex) (s found : Session)
    → IsConsistent r
    → r.indexes s.sender_index ≡ some found
    → remove r s ≡ ok (removed r found, some found)
unfolding remove
remove-found r s found con h =
    let e : found.sender_index ≡ s.sender_index = (con s.sender_index found h).0 in
    let kept =
      has-some (r.keys found.secret.public) s.sender_index (con s.sender_index found h).1 in
    rw (h, remove)
      (ap {B = Outcome Error (SessionIndex × Option Session)}
          (λ j.
            forget (record r { indexes = λ i. if i == j then none else r.indexes i })
              found.secret.public found.sender_index
            >>= λ left. ok (left, some found))
          (sym e)
        ∙ ap {B = Outcome Error (SessionIndex × Option Session)}
            (λ o. o >>= λ left. ok (left, some found))
            (forget-eq
              (record r { indexes = λ i. if i == found.sender_index then none else r.indexes i })
              found.secret.public found.sender_index (has (r.keys found.secret.public)) kept))

pub absurd_bool {ℓ} : {b : Bool} {B : Type ℓ} → b ≡ true → b ≡ false → B
absurd_bool h k = cc

-- The other indexes of a key stay in its set.
has-removed :
    (r : SessionIndex) (found : Session) (k : List ℕ) (i : ℕ)
    → has (r.keys k) i ≡ true
    → (i == found.sender_index) ≡ false
    → has ((removed r found).keys k) i ≡ true
has-removed r f k i h ne = elim (Bool-cases (bytes_eq k f.secret.public)) [
  | inl e ↦ rw (e, ne, sym ((bytes_eq_iff k f.secret.public).0 e)) h
  | inr other ↦ rw (other) h
]

pub removed-IsConsistent :
    (r : SessionIndex) (found : Session) → IsConsistent r → IsConsistent (removed r found)
removed-IsConsistent r f con i t h = elim (Bool-cases (i == f.sender_index)) [
  | inl e ↦ none-some (sym (ap (λ b. if b then none else r.indexes i) e) ∙ h)
  | inr ne ↦
      let old : r.indexes i ≡ some t = sym (ap (λ b. if b then none else r.indexes i) ne) ∙ h in
      ((con i t old).0, has-removed r f t.secret.public i (con i t old).1 ne)
]

-- What a consistent registry still holds after `remove_by_key` was registered before, and under
-- another key.
pub remove_by_key-kept :
    (r : SessionIndex) (key : List ℕ) (i : ℕ) (s : Session)
    → IsConsistent r
    → get_by_index (remove_by_key r key) i ≡ some s
    → (bytes_eq s.secret.public key ≡ false) × (get_by_index r i ≡ some s)
unfolding remove_by_key get_by_index
remove_by_key-kept r key i s con h = elim (Bool-cases (has (r.keys key) i)) [
  | inl e ↦ none-some (sym (ap (λ b. if b then none else r.indexes i) e) ∙ h)
  | inr ne ↦
      let old : r.indexes i ≡ some s = sym (ap (λ b. if b then none else r.indexes i) ne) ∙ h in
      elim (Bool-cases (bytes_eq s.secret.public key)) [
        | inl same ↦
            let there = (con i s old).1 in
            let k = (bytes_eq_iff s.secret.public key).0 same in
            absurd_bool (sym (ap (λ k. has (r.keys k) i) k) ∙ there) ne
        | inr other ↦ (other, old)
      ]
]

pub remove_by_key-IsConsistent :
    (r : SessionIndex) (key : List ℕ) → IsConsistent r → IsConsistent (remove_by_key r key)
unfolding remove_by_key get_by_index
remove_by_key-IsConsistent r key con i s h =
    let k = remove_by_key-kept r key i s con h in ((con i s k.1).0, rw (k.0) (con i s k.1).1)
