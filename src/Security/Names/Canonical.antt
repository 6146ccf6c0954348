-- ===== src/Security/Names/Canonical.antt =====
-- The names that `CanonicalRepositoryName` of src/security/mod.rs accepts.
use github_webhook_exporter.Prelude.{
  ℕ, ◌<◌, ◌≡◌, refl, sym, ap, ◌∙◌, Bool-cases, inl, inr, ◌==◌, ◌||◌, Bool, true, false, List, [],
  ◌∷◌, ◌++◌, arith, all, Text, is_ascii_alphanumeric, encode_utf8, as_bytes, is_whitespace,
  trim_start, trim_end, trim, ascii_lower, to_ascii_lowercase, split, Option, some, all-append,
  ==_iff,
}
use github_webhook_exporter.Security.Names.{
  CanonicalRepositoryName, allowed_byte, valid_repository_segment, from_segments, new,
}

-- The text that `split` cut up.
abbrev joined : ℕ → Text → List Text → Text
joined sep s [] = s
joined sep s (t ∷ ts) = s ++ sep ∷ joined sep t ts

joined-cons : (sep c : ℕ) (s : Text) (ts : List Text) → joined sep (c ∷ s) ts ≡ c ∷ joined sep s ts
joined-cons sep c s [] = refl
joined-cons sep c s (t ∷ ts) = refl

joined-split : (sep : ℕ) (s : Text) → joined sep (split sep s).0 (split sep s).1 ≡ s
unfolding split
joined-split sep [] = refl
joined-split sep (c ∷ s) = elim (Bool-cases (c == sep)) [
  | inl e ↦ rw e (cc ((==_iff c sep).0 e, joined-split sep s))
  | inr e ↦ rw e (joined-cons sep c _ _ ∙ ap (◌∷◌ c) (joined-split sep s))
]

-- Allowed characters.

encode-allowed :
    (c : ℕ) → all allowed_byte (encode_utf8 c) ≡ true → (c < 0x80) × (allowed_byte c ≡ true)
unfolding encode_utf8 allowed_byte is_ascii_alphanumeric
encode-allowed c h = ground arith

allowed_chars : (s : Text) → all allowed_byte (as_bytes s) ≡ true → all allowed_byte s ≡ true
unfolding as_bytes
allowed_chars [] h = refl
allowed_chars (c ∷ s) h =
    ground (
      arith,
      all-append allowed_byte (encode_utf8 c) (as_bytes s),
      encode-allowed c,
      allowed_chars s,
    )

abbrev plain : ℕ → Bool
plain c = allowed_byte c || c == b'/'

plain-whitespace : (c : ℕ) → plain c ≡ true → is_whitespace c ≡ false
unfolding allowed_byte is_ascii_alphanumeric is_whitespace
plain-whitespace c h = ground arith

allowed-plain : (s : Text) → all allowed_byte s ≡ true → all plain s ≡ true
allowed-plain [] h = refl
allowed-plain (c ∷ s) h = ground (arith, allowed-plain s)

trim_end-plain : (s : Text) → all plain s ≡ true → trim_end s ≡ s
unfolding trim_end
trim_end-plain [] h = refl
trim_end-plain (c ∷ []) h = ground (arith, plain-whitespace c)
trim_end-plain (c ∷ d ∷ s) h = ground (arith, trim_end-plain (d ∷ s))

trim-plain : (s : Text) → all plain s ≡ true → trim s ≡ s
unfolding trim trim_start
trim-plain [] h = unfold trim_end in refl
trim-plain (c ∷ s) h = ground (arith, plain-whitespace c, trim_end-plain (c ∷ s) h)

lower-lower : (s : Text) → to_ascii_lowercase (to_ascii_lowercase s) ≡ to_ascii_lowercase s
unfolding to_ascii_lowercase ascii_lower
lower-lower [] = refl
lower-lower (c ∷ s) = ground (arith, lower-lower s)

-- Two valid segments around one slash.
pub record IsOwnerAndRepository (name : Text) : Type 0 where
  pub owner : Text
  pub repository : Text
  pub parts : name ≡ owner ++ b'/' ∷ repository
  pub owner_valid : valid_repository_segment owner ≡ true
  pub repository_valid : valid_repository_segment repository ≡ true

from_segments-eq_some :
    (t owner : Text) (rest : List Text) (n : CanonicalRepositoryName)
    → joined b'/' owner rest ≡ t
    → from_segments t owner rest ≡ some n
    → IsOwnerAndRepository t × (n ≡ record { name = t })
from_segments-eq_some t owner [] n j h = cc
from_segments-eq_some t owner (a ∷ b ∷ more) n j h = cc
from_segments-eq_some t owner (repository ∷ []) n j h = (
  record {
    owner = owner;
    repository = repository;
    parts = sym j;
    owner_valid = ground arith;
    repository_valid = ground arith;
  },
  ground arith,
)

-- An accepted name is the trimmed lowercase text, and it is two valid segments around one slash.
pub new-eq_some :
    (s : Text) (n : CanonicalRepositoryName)
    → new s ≡ some n
    → IsOwnerAndRepository n.name × (n.name ≡ to_ascii_lowercase (trim s))
unfolding new
new-eq_some s n h =
    let t = to_ascii_lowercase (trim s) in
    let r = from_segments-eq_some t (split b'/' t).0 (split b'/' t).1 n (joined-split b'/' t) h in
    (rw r.1 r.0, ground (arith, r.1))

segment-plain : (s : Text) → valid_repository_segment s ≡ true → all plain s ≡ true
unfolding valid_repository_segment
segment-plain s h = allowed-plain s (allowed_chars s (ground arith))

name-plain : (name : Text) → IsOwnerAndRepository name → all plain name ≡ true
name-plain name v =
    rw
      (
        v.parts,
        all-append plain v.owner (b'/' ∷ v.repository),
        segment-plain v.owner v.owner_valid,
        segment-plain v.repository v.repository_valid,
      )
      (ground arith)

accept : Text → Option CanonicalRepositoryName
accept t = from_segments t (split b'/' t).0 (split b'/' t).1

-- An accepted name is accepted again, as itself, so what is stored is read back.
pub new-new : (s : Text) (n : CanonicalRepositoryName) → new s ≡ some n → new n.name ≡ some n
unfolding new accept
new-new s n h =
    let (shape, e) = new-eq_some s n h in
    let fixed : to_ascii_lowercase (trim n.name) ≡ to_ascii_lowercase (trim s) =
      rw (trim-plain n.name (name-plain n.name shape), e) (lower-lower (trim s)) in
    ap accept fixed ∙ h
