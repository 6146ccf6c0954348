-- ===== src/Api/Repositories.antt =====
-- src/api/repositories.rs: the handlers of the administrator's interface, over the repository store
-- and the gauge of configured repositories. Reading JSON and the path are axum's and serde's.
pub mod Failures
mod Tests
use github_webhook_exporter.Prelude.{
  ℕ, ◌+◌, ◌-◌, ◌%◌, ◌^◌, Bool, ◌&&◌, List, Text, ℤ, pos, negsuc, Option, none, some, parse_i64,
  Result, ok, err, ok_or, map_err, ◌>>=◌, if◌then◌else◌,
}
use github_webhook_exporter.Prelude.Options
use github_webhook_exporter.Domain.Repository.{
  RepositoryId, RepositoryMetadata, RepositoryMutation, from_database, is_none,
}
use github_webhook_exporter.Security.Names
use github_webhook_exporter.Security.Names.{CanonicalRepositoryName}
use github_webhook_exporter.Security.Secrets.{RepositorySecret, new_secret, Crypto}
use github_webhook_exporter.Security.Admin
use github_webhook_exporter.Security.Admin.{AdminAuthenticator, Authenticated}
use github_webhook_exporter.Storage.Sql.{Session}
use github_webhook_exporter.Storage.Tables.{Database}
use github_webhook_exporter.Storage.Repository
use github_webhook_exporter.Storage.Repository.{RepositoryStoreError}
use github_webhook_exporter.Api.Errors.{
  AppError, invalid_request, authentication, from_repository_store,
}

pub record CreateRepositoryRequest : Type 0 where
  pub full_name : Text
  pub webhook_secret : Text
  pub enabled : Bool

pub record PatchRepositoryRequest : Type 0 where
  pub full_name : Option Text
  pub webhook_secret : Option Text
  pub enabled : Option Bool

-- The parts of the state that the handlers change; the gauge is a `u64`.
pub record AppState : Type 0 where
  pub store : Session Database
  pub configurations : ℕ

unfoldable pub increment : ℕ → ℕ
increment n = (n + 1) % 2 ^ 64

unfoldable pub decrement : ℕ → ℕ
decrement n = (n + (2 ^ 64 - 1)) % 2 ^ 64

pub data Answer : Type 0 where
  created : RepositoryMetadata → Answer
  listed : List RepositoryMetadata → Answer
  found : RepositoryMetadata → Answer
  no_content : Answer

-- `RepositoryId::new` on an `i64`.
abbrev repository_id : ℤ → Option RepositoryId
repository_id (pos n) = from_database n
repository_id (negsuc n) = none

unfoldable pub parse_repository_id : Text → Result AppError RepositoryId
unfolding parse_i64 from_database
parse_repository_id raw_id =
    ok_or (Options.and_then (parse_i64 raw_id) repository_id) invalid_request

abbrev optional_name : Option Text → Result AppError (Option CanonicalRepositoryName)
optional_name none = ok none
optional_name (some s) = ok_or (Names.new s) invalid_request >>= λ name. ok (some name)

abbrev optional_secret : Option Text → Result AppError (Option RepositorySecret)
optional_secret none = ok none
optional_secret (some s) =
    map_err (λ e. invalid_request) (new_secret s) >>= λ secret. ok (some secret)

unfoldable pub mutation_of : PatchRepositoryRequest → Result AppError RepositoryMutation
unfolding Names.new new_secret
mutation_of request =
    if is_none request.full_name && is_none request.webhook_secret && is_none request.enabled
    then err invalid_request
    else optional_name request.full_name >>= λ full_name.
        optional_secret request.webhook_secret >>= λ webhook_secret. ok (record {
          full_name = full_name;
          webhook_secret = webhook_secret;
          enabled = request.enabled;
        })

-- The part of a handler before its call of the store, and the rest.
abbrev pub after :
    {A : Type 0}
    → Result AppError A
    → (A → AppState → Result AppError Answer × AppState)
    → AppState
    → Result AppError Answer × AppState
after (err e) rest s = (err e, s)
after (ok a) rest s = rest a s

-- The answer to the store's result; `fresh` is the correlation identifier that an error may carry,
-- and the gauge is changed where there is no error.
abbrev pub answer :
    {A : Type 0}
    → ℕ
    → (ℕ → ℕ)
    → (A → Answer)
    → ℕ
    → Result RepositoryStoreError A × Session Database
    → Result AppError Answer × AppState
answer fresh gauge respond n (ok a, store) =
    (ok (respond a), record { store = store; configurations = gauge n })
answer fresh gauge respond n (err e, store) =
    (err (from_repository_store fresh e), record { store = store; configurations = n })

abbrev unchanged : ℕ → ℕ
unchanged n = n

module _ (sha256 : List ℕ → List ℕ) (authenticator : AdminAuthenticator) (c : Crypto) (key : List ℕ)
    (fresh : ℕ) where
  -- The extractor, which runs first.
  unfoldable pub authorized : Option Text → Result AppError Authenticated
  unfolding Admin.authenticate
  authorized authorization =
      map_err (λ e. authentication) (Admin.authenticate sha256 authenticator authorization)

  unfoldable pub create_repository :
      (nonce : List ℕ) (now : Text)
      → Option Text
      → Option CreateRepositoryRequest
      → AppState
      → Result AppError Answer × AppState
  unfolding authorized Names.new new_secret Repository.create from_repository_store increment
  create_repository nonce now authorization payload = after (authorized authorization) λ _.
      after (ok_or payload invalid_request) λ request.
        after (ok_or (Names.new request.full_name) invalid_request) λ full_name.
          after (map_err (λ e. invalid_request) (new_secret request.webhook_secret)) λ secret s.
            answer fresh increment created s.configurations
              (Repository.create c key nonce now full_name secret request.enabled s.store)

  unfoldable pub list_repositories : Option Text → AppState → Result AppError Answer × AppState
  unfolding authorized Repository.list from_repository_store
  list_repositories authorization =
      after (authorized authorization)
        λ _ s. answer fresh unchanged listed s.configurations (Repository.list c key s.store)

  unfoldable pub get_repository : Option Text → Text → AppState → Result AppError Answer × AppState
  unfolding authorized parse_repository_id Repository.get from_repository_store
  get_repository authorization raw_id = after (authorized authorization) λ _.
      after (parse_repository_id raw_id)
        λ id s. answer fresh unchanged found s.configurations (Repository.get c key id s.store)

  unfoldable pub update_repository :
      (nonce : List ℕ) (now : Text)
      → Option Text
      → Text
      → Option PatchRepositoryRequest
      → AppState
      → Result AppError Answer × AppState
  unfolding authorized parse_repository_id mutation_of Repository.update from_repository_store
  update_repository nonce now authorization raw_id payload = after (authorized authorization) λ _.
      after (parse_repository_id raw_id) λ id.
        after (ok_or payload invalid_request >>= mutation_of) λ mutation s.
          answer fresh unchanged found s.configurations
            (Repository.update c key nonce now id mutation s.store)

  unfoldable pub delete_repository :
      Option Text → Text → AppState → Result AppError Answer × AppState
  unfolding authorized parse_repository_id Repository.delete from_repository_store decrement
  delete_repository authorization raw_id = after (authorized authorization) λ _.
      after (parse_repository_id raw_id) λ id s.
        answer fresh decrement (λ _. no_content) s.configurations
          (Repository.delete c key id s.store)
