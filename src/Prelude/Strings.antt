-- ===== src/Prelude/Strings.antt =====
-- A Rust string as the list of its Unicode scalar values, with the parts of `str` that the source
-- uses, and the match of a text against a vocabulary of literals.
use Prim.Native.Nat.{ℕ}
use Prim.Native.Char.{code}
use Prim.Native.String.{String}
use mathlib.Core.Path.{◌≡◌, refl}
use mathlib.Core.Logic.{◌↔◌, ◌⊎◌, inl, inr}
use mathlib.Core.Bool.{Bool, true, false, ◌&&◌, ◌||◌}
use mathlib.Core.List.{List, [], ◌∷◌, ◌++◌, map}
use mathlib.Core.Option.{Option, none, some}
use native.Mathlib.Omega.{arith}
use github_webhook_exporter.Prelude.Tests.{ltb, ◌==◌, if◌then◌else◌, Option-cases}

abbrev pub Text : Type 0
Text = List ℕ

-- The text of a literal.
abbrev pub lit : String → Text
lit String.[] = []
lit (String.◌∷◌ c s) = code c ∷ lit s

-- `==` of `str`.
unfoldable pub text_eq : Text → Text → Bool
text_eq [] [] = true
text_eq [] (y ∷ ys) = false
text_eq (x ∷ xs) [] = false
text_eq (x ∷ xs) (y ∷ ys) = x == y && text_eq xs ys

pub text_eq→eq : (s t : Text) → text_eq s t ≡ true → s ≡ t
unfolding text_eq
text_eq→eq [] [] h = refl
text_eq→eq [] (y ∷ ys) h = cc
text_eq→eq (x ∷ xs) [] h = cc
text_eq→eq (x ∷ xs) (y ∷ ys) h = ground (arith, text_eq→eq xs ys)

pub text_eq_refl : (s : Text) → text_eq s s ≡ true
unfolding text_eq
text_eq_refl [] = refl
text_eq_refl (x ∷ xs) = ground (arith, text_eq_refl xs)

pub text_eq_iff : (s t : Text) → (text_eq s t ≡ true) ↔ (s ≡ t)
text_eq_iff s t = (text_eq→eq s t, λ e. rw e (text_eq_refl t))

-- The order of SQLite's TEXT values under the BINARY collation, on texts of ASCII characters.
unfoldable pub text_lt : Text → Text → Bool
text_lt s [] = false
text_lt [] (y ∷ ys) = true
text_lt (x ∷ xs) (y ∷ ys) = ltb x y || (x == y && text_lt xs ys)

-- `str::strip_prefix`.
unfoldable pub strip_prefix : Text → Text → Option Text
strip_prefix [] s = some s
strip_prefix (p ∷ ps) [] = none
strip_prefix (p ∷ ps) (c ∷ s) = if p == c then strip_prefix ps s else none

pub strip_prefix-eq_some : (p s r : Text) → strip_prefix p s ≡ some r → s ≡ p ++ r
unfolding strip_prefix
strip_prefix-eq_some [] s r h = ground arith
strip_prefix-eq_some (p ∷ ps) [] r h = cc
strip_prefix-eq_some (p ∷ ps) (c ∷ s) r h = ground (arith, strip_prefix-eq_some ps s r)

pub strip_prefix-append : (p r : Text) → strip_prefix p (p ++ r) ≡ some r
unfolding strip_prefix
strip_prefix-append [] r = refl
strip_prefix-append (p ∷ ps) r = ground (arith, strip_prefix-append ps r)

-- A `match` of a text against literals: the arms, and the default arm.
module _ {ℓ} {A : Type ℓ} where
  unfoldable pub lookup_text : List (Text × A) → Text → Option A
  unfolding text_eq
  lookup_text [] s = none
  lookup_text ((k, a) ∷ arms) s = if text_eq s k then some a else lookup_text arms s

  abbrev or_default : A → Option A → A
  or_default d none = d
  or_default d (some a) = a

  unfoldable pub match_text : List (Text × A) → A → Text → A
  unfolding lookup_text
  match_text arms d s = or_default d (lookup_text arms s)

  -- Each arm's literal is the spelling of its value.
  abbrev pub SpelledBy : (A → Text) → List (Text × A) → Type 0
  SpelledBy spell arms = map (λ arm. spell arm.1) arms ≡ map (λ arm. arm.0) arms

  pub lookup_text-spelled :
      (spell : A → Text) (arms : List (Text × A)) (s : Text) (a : A)
      → SpelledBy spell arms
      → lookup_text arms s ≡ some a
      → s ≡ spell a
  unfolding lookup_text
  lookup_text-spelled spell [] s a h e = cc
  lookup_text-spelled spell ((k, b) ∷ arms) s a h e =
      ground (arith, text_eq_iff s k, lookup_text-spelled spell arms s a)

  -- A match whose arms are spelled by `spell` takes the default or an exact spelling.
  pub match_text-spelled :
      (spell : A → Text) (arms : List (Text × A)) (d : A) (s : Text)
      → SpelledBy spell arms
      → (match_text arms d s ≡ d) ⊎ (s ≡ spell (match_text arms d s))
  unfolding match_text
  match_text-spelled spell arms d s h = elim (Option-cases (lookup_text arms s)) [
    | inl e ↦ inl (rw (e, or_default))
    | inr (a, e) ↦ inr (rw e (lookup_text-spelled spell arms s a h e))
  ]
