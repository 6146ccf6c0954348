-- ===== src/Prelude/Filters.antt =====
-- Laws of the Boolean filter `keep` and of the tests `any`, `all` and `mem` on lists.
use Prim.Native.Nat.{ℕ, suc, ◌+◌, ◌-◌, ◌≤◌, ◌<◌}
use mathlib.Core.Path.{◌≡◌, refl}
use mathlib.Core.Bool.{Bool, true, false, not, ◌&&◌, ◌||◌}
use mathlib.Core.List.{List, [], ◌∷◌, ◌++◌, map}
use native.Mathlib.Omega.{arith}
use github_webhook_exporter.Prelude.Lists.{length, take, keep, any, all, mem}

module _ {ℓ} {A : Type ℓ} (p : A → Bool) where
  pub keep-append : (xs ys : List A) → keep p (xs ++ ys) ≡ keep p xs ++ keep p ys
  keep-append [] ys = refl
  keep-append (x ∷ xs) ys = ground (arith, keep-append xs ys)

  pub any-append : (xs ys : List A) → any p (xs ++ ys) ≡ (any p xs || any p ys)
  any-append [] ys = refl
  any-append (x ∷ xs) ys = ground (arith, any-append xs ys)

  pub all-append : (xs ys : List A) → all p (xs ++ ys) ≡ (all p xs && all p ys)
  all-append [] ys = refl
  all-append (x ∷ xs) ys = ground (arith, all-append xs ys)

  pub keep-eq_nil : (xs : List A) → any p xs ≡ false → keep p xs ≡ []
  keep-eq_nil [] h = refl
  keep-eq_nil (x ∷ xs) h = ground (arith, keep-eq_nil xs)

  pub keep-nil-any : (xs : List A) → keep p xs ≡ [] → any p xs ≡ false
  keep-nil-any [] h = refl
  keep-nil-any (x ∷ xs) h = ground (arith, keep-nil-any xs)

  pub all-keep : (q : A → Bool) (xs : List A) → all p xs ≡ true → all p (keep q xs) ≡ true
  all-keep q [] h = refl
  all-keep q (x ∷ xs) h = ground (arith, all-keep q xs)

  pub length-keep-keep-le :
      (q : A → Bool) (xs : List A) → length (keep p (keep q xs)) ≤ length (keep p xs)
  length-keep-keep-le q [] = omega arith
  length-keep-keep-le q (x ∷ xs) = ground (arith, length-keep-keep-le q xs)

  pub length-keep-split :
      (xs : List A) → length (keep p xs) + length (keep (λ x. not (p x)) xs) ≡ length xs
  length-keep-split [] = omega arith
  length-keep-split (x ∷ xs) = ground (arith, length-keep-split xs)

-- No number occurs twice.
abbrev pub Distinct : List ℕ → Type 0
Distinct [] = Unit {0}
Distinct (k ∷ ks) = (mem k ks ≡ false) × Distinct ks

pub mem-append : (k : ℕ) (xs ys : List ℕ) → mem k (xs ++ ys) ≡ (mem k xs || mem k ys)
mem-append k [] ys = refl
mem-append k (x ∷ xs) ys = ground (arith, mem-append k xs ys)

pub mem-take : (n k : ℕ) (xs : List ℕ) → mem k (take n xs) ≡ true → mem k xs ≡ true
mem-take Prim.Native.Nat.zero k xs h = cc
mem-take (suc n) k [] h = h
mem-take (suc n) k (x ∷ xs) h = ground (arith, mem-take n k xs)

pub Distinct-take : (n : ℕ) (xs : List ℕ) → Distinct xs → Distinct (take n xs)
Distinct-take Prim.Native.Nat.zero xs h = tt
Distinct-take (suc n) [] h = tt
Distinct-take (suc n) (x ∷ xs) h = ground (arith, mem-take n x xs, Distinct-take n xs)

module _ {ℓ} {A : Type ℓ} (f : A → ℕ) where
  pub mem-map-keep :
      (k : ℕ) (p : A → Bool) (xs : List A)
      → mem k (map f (keep p xs)) ≡ true
      → mem k (map f xs) ≡ true
  mem-map-keep k p [] h = h
  mem-map-keep k p (x ∷ xs) h = ground (arith, mem-map-keep k p xs)

  pub Distinct-map-keep :
      (p : A → Bool) (xs : List A) → Distinct (map f xs) → Distinct (map f (keep p xs))
  Distinct-map-keep p [] h = tt
  Distinct-map-keep p (x ∷ xs) h = ground (arith, mem-map-keep (f x) p xs, Distinct-map-keep p xs)
