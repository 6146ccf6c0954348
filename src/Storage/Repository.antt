-- ===== src/Storage/Repository.antt =====
-- src/storage/repository_store.rs: encrypted repository configurations.
pub mod Statements
pub mod Atomic
pub mod Authentic
pub mod Mutations
mod Tests
use github_webhook_exporter.Prelude.{
  ℕ, ◌==◌, ◌&&◌, ◌||◌, Bool, true, false, not, Option, none, some, List, [], ◌∷◌, Text, text_eq,
  ltb, length, Result, ok, err, ok_or, map_err, if◌then◌else◌,
}
use github_webhook_exporter.Domain.Repository.{
  RepositoryId, from_database, RepositoryMetadata, RepositoryMutation, is_none, unwrap_or, is_empty,
}
use github_webhook_exporter.Security.Names.{CanonicalRepositoryName, new}
use github_webhook_exporter.Security.Secrets.{
  SecurityError, invalid_encrypted_secret, invalid_repository_name, RepositorySecret,
  EncryptedRepositorySecret, from_parts, Crypto, encrypt, decrypt,
}
use github_webhook_exporter.Storage.Sql.{
  SqlxError, database, other, sqlite_is_busy_or_locked, Sql, begin, commit, in_transaction, on_pool,
  lift, ◌>>=◌, ◌>>◌,
}
use github_webhook_exporter.Storage.Tables.{RepositoryRow, Database}
use github_webhook_exporter.Storage.Repository.Statements.{
  select_by_id, select_enabled, select_all, count_repositories, insert_repository,
  update_repository, delete_repository,
}

pub data RepositoryStoreError : Type 0 where
  authentication_failed not_found conflict empty_mutation : RepositoryStoreError
  cryptographic : SecurityError → RepositoryStoreError
  unavailable internal_data internal : RepositoryStoreError

unfoldable pub map_sqlx_error : SqlxError → RepositoryStoreError
map_sqlx_error (database code true) = conflict
map_sqlx_error (database code false) =
    if sqlite_is_busy_or_locked (database code false) then unavailable else internal
map_sqlx_error other = internal

infixl 5 ◌~>◌
abbrev ◌~>◌ :
    {A B : Type 0}
    → Result RepositoryStoreError A
    → (A → Result RepositoryStoreError B)
    → Result RepositoryStoreError B
ok a ~> f = f a
err e ~> f = err e

unfoldable pub decode_encrypted_secret :
    RepositoryRow → Result RepositoryStoreError EncryptedRepositorySecret
unfolding from_parts
decode_encrypted_secret row =
    if ltb 255 row.encryption_version
    then err (cryptographic invalid_encrypted_secret)
    else map_err cryptographic
        (from_parts row.encryption_version row.webhook_secret_nonce row.webhook_secret_ciphertext)

pub record StoredRepository : Type 0 where
  pub id : RepositoryId
  pub full_name : CanonicalRepositoryName
  pub encrypted : EncryptedRepositorySecret
  pub enabled : Bool
  pub created_at : Text
  pub updated_at : Text

abbrev pub into_metadata : StoredRepository → RepositoryMetadata
into_metadata s = record {
  id = s.id;
  full_name = s.full_name;
  enabled = s.enabled;
  created_at = s.created_at;
  updated_at = s.updated_at;
}

unfoldable pub decode_enabled : ℕ → Result RepositoryStoreError Bool
decode_enabled n = if n == 0 then ok false else if n == 1 then ok true else err internal_data

unfoldable pub decode_row : RepositoryRow → Result RepositoryStoreError StoredRepository
unfolding decode_encrypted_secret from_database decode_enabled
decode_row row = ok_or (from_database row.id) internal_data ~> λ id.
    ok_or (new row.full_name) (cryptographic invalid_repository_name) ~> λ full_name.
    decode_encrypted_secret row ~> λ encrypted. decode_enabled row.enabled ~> λ enabled.
    ok (record {
      id = id;
      full_name = full_name;
      encrypted = encrypted;
      enabled = enabled;
      created_at = row.created_at;
      updated_at = row.updated_at;
    })

pub record RepositoryAuthenticationMaterial : Type 0 where
  pub repository_id : RepositoryId
  pub webhook_secret : RepositorySecret

abbrev pub sealed_for : EncryptedRepositorySecret → CanonicalRepositoryName → Bool → RepositoryRow
sealed_for e name enabled = record {
  id = 0;
  full_name = name.name;
  webhook_secret_ciphertext = e.ciphertext;
  webhook_secret_nonce = e.nonce;
  encryption_version = e.version;
  enabled = if enabled then 1 else 0;
  created_at = [];
  updated_at = [];
}

-- The store over its cipher: the crates behind it and its derived key. `nonce` is what the random
-- generator returns to an encryption, `now` is SQLite's clock.
module _ (c : Crypto) (key : List ℕ) where
  unfoldable pub authenticate_row : RepositoryRow → Result RepositoryStoreError RepositoryMetadata
  unfolding decode_row
  authenticate_row row = decode_row row ~> λ stored.
      map_err cryptographic (decrypt c key stored.full_name stored.encrypted) ~> λ _.
      ok (into_metadata stored)

  abbrev authenticate_rows :
      List RepositoryRow → Result RepositoryStoreError (List RepositoryMetadata)
  authenticate_rows [] = ok []
  authenticate_rows (row ∷ rows) =
      authenticate_row row ~> λ m. authenticate_rows rows ~> λ ms. ok (m ∷ ms)

  unfoldable pub count : Sql Database RepositoryStoreError ℕ
  unfolding on_pool count_repositories map_sqlx_error
  count = on_pool map_sqlx_error count_repositories

  unfoldable pub list : Sql Database RepositoryStoreError (List RepositoryMetadata)
  unfolding on_pool select_all map_sqlx_error
  list = do rows ← on_pool map_sqlx_error select_all; lift (authenticate_rows rows)

  unfoldable pub get : RepositoryId → Sql Database RepositoryStoreError RepositoryMetadata
  unfolding on_pool select_by_id map_sqlx_error authenticate_row
  get id = do
    found ← on_pool map_sqlx_error (select_by_id id.id)
    row ← lift (ok_or found not_found)
    lift (authenticate_row row)

  unfoldable pub create :
      (nonce : List ℕ) (now : Text) (full_name : CanonicalRepositoryName)
      (webhook_secret : RepositorySecret) (enabled : Bool)
      → Sql Database RepositoryStoreError RepositoryMetadata
  unfolding begin commit in_transaction insert_repository map_sqlx_error authenticate_row
  create nonce now full_name webhook_secret enabled = do
    begin map_sqlx_error
    encrypted ← lift (map_err cryptographic (encrypt c key nonce full_name webhook_secret))
    row ←
        in_transaction map_sqlx_error
          (insert_repository now (sealed_for encrypted full_name enabled))
    metadata ← lift (authenticate_row row)
    commit map_sqlx_error
    lift (ok metadata)

  unfoldable pub material :
      CanonicalRepositoryName
      → RepositoryRow
      → Result RepositoryStoreError RepositoryAuthenticationMaterial
  unfolding decode_encrypted_secret from_database
  material full_name row = ok_or (from_database row.id) internal_data ~> λ id.
      decode_encrypted_secret row ~> λ encrypted.
      map_err cryptographic (decrypt c key full_name encrypted) ~> λ secret.
      ok (record { repository_id = id; webhook_secret = secret })

  unfoldable pub authentication_material :
      CanonicalRepositoryName → Sql Database RepositoryStoreError RepositoryAuthenticationMaterial
  unfolding on_pool select_enabled map_sqlx_error material
  authentication_material full_name = do
    found ← on_pool map_sqlx_error (select_enabled full_name.name)
    row ← lift (ok_or found authentication_failed)
    lift (material full_name row)

  -- The encrypted value that an update writes.
  unfoldable pub encrypted_again :
      (nonce : List ℕ)
      → StoredRepository
      → RepositoryMutation
      → RepositorySecret
      → Result RepositoryStoreError EncryptedRepositorySecret
  encrypted_again nonce current mutation current_secret =
      let final_name = unwrap_or mutation.full_name current.full_name in
      if not (text_eq final_name.name current.full_name.name)
        || not (is_none mutation.webhook_secret)
      then map_err cryptographic
          (encrypt c key nonce final_name (unwrap_or mutation.webhook_secret current_secret))
      else ok current.encrypted

  -- The values that an update writes over those of a row, which must be authentic.
  unfoldable pub replacement :
      (nonce : List ℕ)
      → RepositoryMutation
      → RepositoryRow
      → Result RepositoryStoreError RepositoryRow
  unfolding decode_row encrypted_again
  replacement nonce mutation row = decode_row row ~> λ current.
      map_err cryptographic (decrypt c key current.full_name current.encrypted) ~> λ current_secret.
      encrypted_again nonce current mutation current_secret ~> λ encrypted. ok (
        sealed_for encrypted (unwrap_or mutation.full_name current.full_name)
          (unwrap_or mutation.enabled current.enabled))

  -- The start of an update, up to the values that it writes.
  unfoldable pub prepare :
      (nonce : List ℕ)
      → RepositoryId
      → RepositoryMutation
      → Sql Database RepositoryStoreError RepositoryRow
  unfolding begin in_transaction select_by_id map_sqlx_error replacement
  prepare nonce id mutation = do
    begin map_sqlx_error
    found ← in_transaction map_sqlx_error (select_by_id id.id)
    lift (ok_or found not_found ~> replacement nonce mutation)

  -- The end of an update: its UPDATE, the check of what it wrote, and the commit.
  unfoldable pub write_back :
      Text → RepositoryId → RepositoryRow → Sql Database RepositoryStoreError RepositoryMetadata
  unfolding commit in_transaction update_repository map_sqlx_error authenticate_row
  write_back now id written = do
    row ← in_transaction map_sqlx_error (update_repository now id.id written)
    metadata ← lift (authenticate_row row)
    commit map_sqlx_error
    lift (ok metadata)

  unfoldable pub update :
      (nonce : List ℕ) (now : Text)
      → RepositoryId
      → RepositoryMutation
      → Sql Database RepositoryStoreError RepositoryMetadata
  unfolding prepare write_back is_empty
  update nonce now id mutation = do
    lift (if is_empty mutation then err empty_mutation else ok mutation)
    written ← prepare nonce id mutation
    write_back now id written

  unfoldable pub delete : RepositoryId → Sql Database RepositoryStoreError RepositoryId
  unfolding begin commit in_transaction select_by_id delete_repository map_sqlx_error
      authenticate_row
  delete id = do
    begin map_sqlx_error
    found ← in_transaction map_sqlx_error (select_by_id id.id)
    row ← lift (ok_or found not_found)
    lift (authenticate_row row)
    in_transaction map_sqlx_error (delete_repository id.id)
    commit map_sqlx_error
    lift (ok id)
