-- ===== src/Common/Outcome.antt =====
-- Go's (value, error) pair: `ok` with a nil error, or `err`.
use mathlib.Core.Path.{◌≡◌, refl}
use mathlib.Core.Logic.{◌⊎◌, inl, inr}

pub data Result {ℓ κ} (E : Type κ) (A : Type ℓ) : Type (ℓ ⊔ κ) where
  ok : A → Result E A
  err : E → Result E A

-- `if err != nil { return err }`
infixl 5 ◌>>=◌
abbrev pub ◌>>=◌ {ℓ κ μ} :
    {E : Type μ} {A : Type ℓ} {B : Type κ} → Result E A → (A → Result E B) → Result E B
ok a >>= f = f a
err e >>= f = err e

-- A chain that succeeds has a first step that does, and a rest that succeeds from there.
pub bind_succeeds {ℓ κ μ} :
    {E : Type μ} {A : Type ℓ} {B : Type κ} {out : B} (k : A → Result E B) (first : Result E A)
    → (first >>= k) ≡ ok out
    → (a : A) × ((first ≡ ok a) × (k a ≡ ok out))
bind_succeeds k (err e) done = cc
bind_succeeds k (ok a) done = (a, (refl, done))

pub Result-cases {ℓ κ} :
    {E : Type κ} {A : Type ℓ} (r : Result E A) → ((a : A) × (r ≡ ok a)) ⊎ ((e : E) × (r ≡ err e))
Result-cases (ok a) = inl (a, refl)
Result-cases (err e) = inr (e, refl)
