-- ===== src/Security/Names.antt =====
-- `CanonicalRepositoryName` of src/security/mod.rs.
pub mod Canonical
use github_webhook_exporter.Prelude.{
  ℕ, ◌==◌, ◌&&◌, ◌||◌, Bool, true, false, not, List, [], ◌∷◌, length, all, Text, leb,
  is_ascii_alphanumeric, as_bytes, trim, to_ascii_lowercase, split, Option, none, some,
  if◌then◌else◌,
}

pub record CanonicalRepositoryName : Type 0 where
  pub name : Text

abbrev pub max_segment_length : ℕ
max_segment_length = 100

unfoldable pub allowed_byte : ℕ → Bool
unfolding is_ascii_alphanumeric
allowed_byte b = is_ascii_alphanumeric b || b == b'-' || b == b'_' || b == b'.'

abbrev is_empty : Text → Bool
is_empty [] = true
is_empty (c ∷ s) = false

unfoldable pub valid_repository_segment : Text → Bool
unfolding allowed_byte as_bytes
valid_repository_segment segment =
    not (is_empty segment)
    && leb (length (as_bytes segment)) max_segment_length
    && all allowed_byte (as_bytes segment)

-- The segments after the owner: there must be one, and no other.
abbrev from_segments : Text → Text → List Text → Option CanonicalRepositoryName
from_segments canonical owner [] = none
from_segments canonical owner (repository ∷ extra ∷ more) = none
from_segments canonical owner (repository ∷ []) =
    if not (valid_repository_segment owner) || not (valid_repository_segment repository)
    then none
    else some (record { name = canonical })

-- `none` is `SecurityError::InvalidRepositoryName`.
unfoldable pub new : Text → Option CanonicalRepositoryName
unfolding trim to_ascii_lowercase split valid_repository_segment
new full_name =
    let canonical = to_ascii_lowercase (trim full_name) in
    let (owner, rest) = split b'/' canonical in from_segments canonical owner rest
