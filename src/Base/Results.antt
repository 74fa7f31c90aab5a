-- ===== src/Base/Results.antt =====
-- `(value, error)` pairs of the source, as a value or an error.
use mathlib.Core.Path.{◌≡◌, refl}
use mathlib.Core.Logic.{◌⊎◌, inl, inr}
use native.Mathlib.Omega.{arith}

pub data Result {ℓ κ} (E : Type κ) (A : Type ℓ) : Type (ℓ ⊔ κ) where
  ok : A → Result E A
  err : E → Result E A

infixl 5 ◌>>=◌
abbrev pub ◌>>=◌ {ℓ κ μ} :
    {E : Type μ} {A : Type ℓ} {B : Type κ} → Result E A → (A → Result E B) → Result E B
ok a >>= f = f a
err e >>= f = err e

pub Result-cases {ℓ κ} :
    {E : Type κ} {A : Type ℓ} (r : Result E A) → ((a : A) × (r ≡ ok a)) ⊎ ((e : E) × (r ≡ err e))
Result-cases (ok a) = inl (a, refl)
Result-cases (err e) = inr (e, refl)

module _ {ℓ κ} {E : Type κ} {A : Type ℓ} where
  pub ok-inj : (r : Result E A) {a b : A} → r ≡ ok a → r ≡ ok b → a ≡ b
  ok-inj (ok c) h k = ground arith
  ok-inj (err e) h k = absurd (ground arith)

  pub err-ne-ok : (r : Result E A) {e : E} {a : A} → r ≡ err e → r ≡ ok a → ⊥
  err-ne-ok r h k = cc

module _ {ℓ κ μ} {E : Type κ} {F : Type μ} {A : Type ℓ} where
  abbrev pub map_err : (E → F) → Result E A → Result F A
  map_err f (ok a) = ok a
  map_err f (err e) = err (f e)

  pub map_err-ok : (f : E → F) (r : Result E A) {a : A} → map_err f r ≡ ok a → r ≡ ok a
  map_err-ok f (ok b) h = ground arith
  map_err-ok f (err e) h = absurd (ground arith)
