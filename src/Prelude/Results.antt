-- ===== src/Prelude/Results.antt =====
-- Go's (value, error) pair: a value, or an error of the type `E`.
use mathlib.Core.Path.{◌≡◌, refl, ap}
use mathlib.Core.Option.{Option, none, some}
use mathlib.Core.Logic.{◌⊎◌, inl, inr}
use mathlib.Core.Bool.{Bool, true, false}

pub data Result {ℓ} (E : Type 0) (A : Type ℓ) : Type ℓ where
  ok : A → Result E A
  err : E → Result E A

pub ok-injective {ℓ} :
    {E : Type 0} {A : Type ℓ} {a b : A} → ◌≡◌ {A = Result E A} (ok a) (ok b) → a ≡ b
ok-injective h = cc

pub err-injective {ℓ} :
    {E : Type 0} {A : Type ℓ} {a b : E} → ◌≡◌ {A = Result E A} (err a) (err b) → a ≡ b
err-injective h = cc

infixl 5 ◌>>=◌
abbrev pub ◌>>=◌ {ℓ κ} :
    {E : Type 0} {A : Type ℓ} {B : Type κ} → Result E A → (A → Result E B) → Result E B
ok a >>= f = f a
err e >>= f = err e

-- A value, or the error `e` where there is none.
abbrev pub or_error {ℓ} : {E : Type 0} {A : Type ℓ} → E → Option A → Result E A
or_error e none = err e
or_error e (some a) = ok a

pub bind-ok {ℓ κ} :
    {E : Type 0} {A : Type ℓ} {B : Type κ} {b : B} (r : Result E A) (f : A → Result E B)
    → (r >>= f) ≡ ok b
    → (a : A) × ((r ≡ ok a) × (f a ≡ ok b))
bind-ok (ok a) f h = (a, (refl, h))
bind-ok (err e) f h = absurd (cc h)

-- An early return of the error `e` where a condition fails.
abbrev pub check {ℓ} : {E : Type 0} {A : Type ℓ} → Bool → E → Result E A → Result E A
check true e r = r
check false e r = err e

pub check-ok {ℓ} :
    {E : Type 0} {A : Type ℓ} {a : A} (b : Bool) (e : E) (r : Result E A)
    → check b e r ≡ ok a
    → (b ≡ true) × (r ≡ ok a)
check-ok true e r h = (refl, h)
check-ok false e r h = absurd (cc h)

pub or_error-ok {ℓ} :
    {E : Type 0} {A : Type ℓ} {a : A} (e : E) (o : Option A) → or_error e o ≡ ok a → o ≡ some a
or_error-ok e none h = absurd (cc h)
or_error-ok e (some a) h = ap some (ok-injective h)

-- Which of the two steps an error comes from.
pub bind-err {ℓ κ} :
    {E : Type 0} {A : Type ℓ} {B : Type κ} {e : E} (r : Result E A) (f : A → Result E B)
    → (r >>= f) ≡ err e
    → (r ≡ err e) ⊎ ((a : A) × ((r ≡ ok a) × (f a ≡ err e)))
bind-err (ok a) f h = inr (a, (refl, h))
bind-err (err x) f h = inl (ap err (err-injective h))

pub check-err {ℓ} :
    {E : Type 0} {A : Type ℓ} {x : E} (b : Bool) (e : E) (r : Result E A)
    → check b e r ≡ err x
    → (e ≡ x) ⊎ ((b ≡ true) × (r ≡ err x))
check-err true e r h = inr (refl, h)
check-err false e r h = inl (err-injective h)
