-- ===== src/Api/Errors.antt =====
-- src/error.rs: the failures of the application as HTTP responses. A correlation identifier is the
-- value of a random UUID, which the constructors take as an argument.
use github_webhook_exporter.Prelude.{ℕ, ◌≡◌, ◌≢◌, refl, Text, lit, Option, none, some, arith}
use github_webhook_exporter.Storage.Repository.{
  RepositoryStoreError, not_found, conflict, empty_mutation,
}

pub data AppError : Type 0 where
  invalid_request authentication : AppError
  repository_store : (error : RepositoryStoreError) → (correlation_id : Option ℕ) → AppError
  invalid_webhook unauthorized_webhook webhook_payload_too_large : AppError
  unsupported_webhook_media_type : AppError
  webhook_unavailable : (correlation_id : ℕ) → AppError
  internal_error : (correlation_id : ℕ) → AppError

-- The constructor `AppError::repository_store`; `fresh` is the identifier that it may make.
unfoldable pub from_repository_store : ℕ → RepositoryStoreError → AppError
from_repository_store fresh not_found = repository_store not_found none
from_repository_store fresh conflict = repository_store conflict none
from_repository_store fresh empty_mutation = repository_store empty_mutation none
from_repository_store fresh error = repository_store error (some fresh)

unfoldable pub correlation_id : AppError → Option ℕ
correlation_id (repository_store error id) = id
correlation_id (webhook_unavailable id) = some id
correlation_id (internal_error id) = some id
correlation_id _ = none

-- `WWW-Authenticate` is the only header that a failure adds.
pub record Response : Type 0 where
  pub status : ℕ
  pub code : Text
  pub message : Text
  pub error_id : Option ℕ
  pub www_authenticate : Option Text

abbrev error_response : ℕ → Text → Text → Response
error_response status code message = record {
  status = status;
  code = code;
  message = message;
  error_id = none;
  www_authenticate = none;
}

abbrev correlated_error_response : ℕ → Text → Text → ℕ → Response
correlated_error_response status code message id = record (error_response status code message) {
  error_id = some id;
}

unfoldable pub internal_response : ℕ → Response
internal_response id =
    correlated_error_response 500 (lit "internal_error") (lit "internal server error") id

-- `expect` on the identifier; `none` is a panic.
abbrev expect_internal : Option ℕ → Option Response
expect_internal none = none
expect_internal (some id) = some (internal_response id)

-- `none` is a panic.
unfoldable pub into_response : AppError → Option Response
unfolding internal_response
into_response invalid_request =
    some (error_response 400 (lit "invalid_request") (lit "request is invalid"))
into_response authentication = some (record {
  status = 401;
  code = lit "unauthorized";
  message = lit "authentication required";
  error_id = none;
  www_authenticate = some (lit "Bearer");
})
into_response (repository_store not_found id) =
    some (error_response 404 (lit "not_found") (lit "repository not found"))
into_response (repository_store conflict id) =
    some (error_response 409 (lit "conflict") (lit "repository name already exists"))
into_response (repository_store empty_mutation id) =
    some (error_response 400 (lit "invalid_request") (lit "repository update must not be empty"))
into_response (repository_store error id) = expect_internal id
into_response invalid_webhook =
    some (error_response 400 (lit "invalid_webhook") (lit "webhook request is invalid"))
into_response unauthorized_webhook =
    some (error_response 401 (lit "unauthorized") (lit "webhook authentication failed"))
into_response webhook_payload_too_large =
    some (error_response 413 (lit "payload_too_large") (lit "webhook payload is too large"))
into_response unsupported_webhook_media_type = some (
    error_response 415 (lit "unsupported_media_type") (lit "content type must be application/json"))
into_response (webhook_unavailable id) = some (
    correlated_error_response 503 (lit "service_unavailable")
      (lit "webhook processing is unavailable") id)
into_response (internal_error id) = some (internal_response id)

-- A failure of the repository store is answered without a panic; the answer tells the correlation
-- identifier that the error carries, and has one exactly if its status is 500.
pub repository_store_answered :
    (fresh : ℕ) (error : RepositoryStoreError)
    → (r : Response) × (into_response (from_repository_store fresh error) ≡ some r)
      × (r.error_id ≡ correlation_id (from_repository_store fresh error))
      × ((r.status ≡ 500 → r.error_id ≡ some fresh))
      × ((r.status ≢ 500 → r.error_id ≡ none))
unfolding into_response from_repository_store correlation_id internal_response
repository_store_answered fresh not_found = (_, refl, refl, (λ e. ground arith), λ e. refl)
repository_store_answered fresh conflict = (_, refl, refl, (λ e. ground arith), λ e. refl)
repository_store_answered fresh empty_mutation = (_, refl, refl, (λ e. ground arith), λ e. refl)
repository_store_answered fresh error = (_, refl, refl, (λ e. refl), λ e. absurd (e refl))
