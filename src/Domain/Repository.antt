-- ===== src/Domain/Repository.antt =====
-- src/domain/repository.rs: repository identifiers, metadata and mutations.
use github_webhook_exporter.Prelude.{
  ℕ, Bool, true, false, ◌&&◌, Option, none, some, Text, ltb, if◌then◌else◌,
}
use github_webhook_exporter.Security.Names.{CanonicalRepositoryName}
use github_webhook_exporter.Security.Secrets.{RepositorySecret}

-- The `i64` behind it is positive, so it is a natural number.
pub record RepositoryId : Type 0 where
  pub id : ℕ

-- `RepositoryId::new`, which `from_database` calls, on a value that is not negative.
unfoldable pub from_database : ℕ → Option RepositoryId
from_database value = if ltb 0 value then some (record { id = value }) else none

pub record RepositoryMetadata : Type 0 where
  pub id : RepositoryId
  pub full_name : CanonicalRepositoryName
  pub enabled : Bool
  pub created_at : Text
  pub updated_at : Text

pub record RepositoryMutation : Type 0 where
  pub full_name : Option CanonicalRepositoryName
  pub webhook_secret : Option RepositorySecret
  pub enabled : Option Bool

abbrev pub is_none : {A : Type 0} → Option A → Bool
is_none none = true
is_none (some a) = false

abbrev pub unwrap_or : {A : Type 0} → Option A → A → A
unwrap_or none d = d
unwrap_or (some a) d = a

unfoldable pub is_empty : RepositoryMutation → Bool
is_empty m = is_none m.full_name && is_none m.webhook_secret && is_none m.enabled
