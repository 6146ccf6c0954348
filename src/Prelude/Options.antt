-- ===== src/Prelude/Options.antt =====
-- The combinators of Rust's `Option`, and its chain by `?`.
use mathlib.Core.Path.{◌≡◌, refl}
use mathlib.Core.Option.{Option, none, some}

module _ {ℓ} {A : Type ℓ} where
  -- `Option::map`.
  abbrev pub map_option {κ} : {B : Type κ} → (A → B) → Option A → Option B
  map_option f none = none
  map_option f (some a) = some (f a)

  -- `Option::or_else`.
  abbrev pub or_else : Option A → Option A → Option A
  or_else none b = b
  or_else (some a) b = some a

infixl 5 ◌>>=◌
abbrev pub ◌>>=◌ {ℓ κ} : {A : Type ℓ} {B : Type κ} → Option A → (A → Option B) → Option B
none >>= f = none
some a >>= f = f a

-- `Option::and_then`.
abbrev pub and_then {ℓ κ} : {A : Type ℓ} {B : Type κ} → Option A → (A → Option B) → Option B
and_then o f = o >>= f

pub some_inj {ℓ} : {A : Type ℓ} (a b : A) → some a ≡ some b → a ≡ b
some_inj a b e = cc

-- A chain that gives a result, taken apart.
pub bound_some {ℓ κ} :
    {A : Type ℓ} {B : Type κ} (o : Option A) (f : A → Option B) (b : B)
    → (o >>= f) ≡ some b
    → (a : A) × (o ≡ some a) × (f a ≡ some b)
bound_some none f b e = cc
bound_some (some a) f b e = (a, refl, e)

pub some_not_none {ℓ} : {A : Type ℓ} {a : A} → some a ≡ none → ⊥
some_not_none e = cc
