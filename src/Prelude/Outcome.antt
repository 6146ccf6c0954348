-- ===== src/Prelude/Outcome.antt =====
-- Rust's `Result`, and its chain by `?`.
use mathlib.Core.Path.{◌≡◌, refl, ap}
use mathlib.Core.Logic.{◌⊎◌, inl, inr}
use mathlib.Core.Option.{Option, none, some}

pub data Result {ℓ κ} (E : Type ℓ) (A : Type κ) : Type (ℓ ⊔ κ) where
  ok : A → Result E A
  err : E → Result E A

module _ {ℓ κ} {E : Type ℓ} {A : Type κ} where
  pub Result-cases : (r : Result E A) → ((a : A) × (r ≡ ok a)) ⊎ ((e : E) × (r ≡ err e))
  Result-cases (ok a) = inl (a, refl)
  Result-cases (err e) = inr (e, refl)

  -- `Option::ok_or`.
  abbrev pub ok_or : Option A → E → Result E A
  ok_or none e = err e
  ok_or (some a) e = ok a

  -- `Result::map_err`.
  abbrev pub map_err {μ} : {F : Type μ} → (E → F) → Result E A → Result F A
  map_err f (ok a) = ok a
  map_err f (err e) = err (f e)

infixl 5 ◌>>=◌
abbrev pub ◌>>=◌ {ℓ κ μ} :
    {E : Type ℓ} {A : Type κ} {B : Type μ} → Result E A → (A → Result E B) → Result E B
ok a >>= f = f a
err e >>= f = err e

module _ {ℓ κ} {E : Type ℓ} {A : Type κ} where
  pub ok_inj : (a b : A) → ◌≡◌ {A = Result E A} (ok a) (ok b) → a ≡ b
  ok_inj a b e = cc

  pub err_inj : (a b : E) → ◌≡◌ {A = Result E A} (err a) (err b) → a ≡ b
  err_inj a b e = cc

  pub ok_not_err : {e : E} {a : A} → ◌≡◌ {A = Result E A} (ok a) (err e) → ⊥
  ok_not_err h = cc

  pub err_not_ok : {e : E} {a : A} → ◌≡◌ {A = Result E A} (err e) (ok a) → ⊥
  err_not_ok h = cc

-- A chain that gives a result, taken apart.
pub bound_ok {ℓ κ μ} :
    {E : Type ℓ} {A : Type κ} {B : Type μ} (r : Result E A) (f : A → Result E B) (b : B)
    → (r >>= f) ≡ ok b
    → (a : A) × (r ≡ ok a) × (f a ≡ ok b)
bound_ok (ok a) f b h = (a, refl, h)
bound_ok (err e) f b h = cc

-- What holds of the errors of its two parts holds of a chain's error.
pub bound_err {ℓ κ μ ν} :
    {E : Type ℓ} {A : Type κ} {B : Type μ} (P : E → Type ν) (r : Result E A) (f : A → Result E B)
    → ((e : E) → r ≡ err e → P e)
    → ((a : A) (e : E) → r ≡ ok a → f a ≡ err e → P e)
    → (e : E) → (r >>= f) ≡ err e
    → P e
bound_err P (ok a) f first later e h = later a e refl h
bound_err P (err x) f first later e h = first e (ap err (err_inj _ _ h))
