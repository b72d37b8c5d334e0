-- ===== src/Outcome.antt =====
-- What a Rust function of the repository returns: a value, an error, or a panic.
use vlink.Prelude.{Bool, true, false, ◌≡◌, refl, ◌⊎◌, inl, inr}

pub data Outcome {ℓ κ} (E : Type κ) (A : Type ℓ) : Type (ℓ ⊔ κ) where
  ok : A → Outcome E A
  err : E → Outcome E A
  panic : Outcome E A

-- The `?` operator; a panic unwinds as well.
infixl 5 ◌>>=◌ ◌>>◌
abbrev pub ◌>>=◌ {ℓ ι κ} :
    {E : Type κ} {A : Type ℓ} {B : Type ι} → Outcome E A → (A → Outcome E B) → Outcome E B
ok a >>= f = f a
err e >>= f = err e
panic >>= f = panic

abbrev pub ◌>>◌ {ℓ κ} : {E : Type κ} {B : Type ℓ} → Outcome E (Unit {0}) → Outcome E B → Outcome E B
m >> k = m >>= λ _. k

-- `if !test { return Err(e); }`
abbrev pub require {κ} : {E : Type κ} → Bool → E → Outcome E (Unit {0})
require true e = ok tt
require false e = err e

-- An index or a slice out of range.
abbrev pub in_range {κ} : {E : Type κ} → Bool → Outcome E (Unit {0})
in_range true = ok tt
in_range false = panic

-- `Result::unwrap`
abbrev pub unwrap {ℓ κ} : {E : Type κ} {A : Type ℓ} → Outcome E A → Outcome E A
unwrap (ok a) = ok a
unwrap (err e) = panic
unwrap panic = panic

-- What a result says of the parts that it was put together from.
pub ok_inj {ℓ κ} : {E : Type κ} {A : Type ℓ} {a b : A} → ◌≡◌ {A = Outcome E A} (ok a) (ok b) → a ≡ b
ok_inj h = cc

pub bind-eq-ok {ℓ ι κ} :
    {E : Type κ} {A : Type ℓ} {B : Type ι} (m : Outcome E A) (f : A → Outcome E B) {b : B}
    → (m >>= f) ≡ ok b
    → (a : A) × (m ≡ ok a) × (f a ≡ ok b)
bind-eq-ok (ok a) f h = (a, refl, h)
bind-eq-ok (err e) f h = cc
bind-eq-ok panic f h = cc

pub Outcome-cases :
    {E A : Type 0} (o : Outcome E A)
    → ((a : A) × (o ≡ ok a)) ⊎ ((e : E) × (o ≡ err e)) ⊎ (o ≡ panic)
Outcome-cases (ok a) = inl (a, refl)
Outcome-cases (err e) = inr (inl (e, refl))
Outcome-cases panic = inr (inr refl)
