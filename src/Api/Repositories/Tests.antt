-- ===== src/Api/Repositories/Tests.antt =====
-- The theorem on the handlers, at a database that is busy in the middle of a transaction.
use github_webhook_exporter.Prelude.{ℕ, true, none, some, List, [], ◌∷◌, Text, lit}
use github_webhook_exporter.Fixtures.{plain_cipher, key, nonce, busy_third}
use github_webhook_exporter.Security.Admin.{AdminAuthenticator}
use github_webhook_exporter.Api.Repositories.{
  CreateRepositoryRequest, PatchRepositoryRequest, AppState, create_repository, update_repository,
  delete_repository,
}
use github_webhook_exporter.Api.Repositories.Failures.{Kept, handlers-Kept}

-- A digest that is the message itself.
abbrev digest : List ℕ → List ℕ
digest bytes = bytes

abbrev authenticator : AdminAuthenticator
authenticator = record { expected_digest = lit "token" }

abbrev bearer : Text
bearer = lit "Bearer token"

abbrev creation : CreateRepositoryRequest
creation = record {
  full_name = lit "octo/bird";
  webhook_secret = lit "0123456789abcdef0123456789abcdef";
  enabled = true;
}

abbrev patch : PatchRepositoryRequest
patch = record { full_name = some (lit "octo/bird"); webhook_secret = none; enabled = none }

abbrev busy_app : AppState
busy_app = record { store = busy_third; configurations = 2 }

handlers-Kept_example :
    Kept busy_app (
      create_repository digest authenticator plain_cipher key 9 nonce
        (70 ∷ [])
        (some bearer)
        (some creation)
        busy_app)
    × Kept busy_app (
        update_repository digest authenticator plain_cipher key 9 nonce
          (70 ∷ [])
          (some bearer)
          (lit "1")
          (some patch)
          busy_app)
    × Kept busy_app
        (delete_repository digest authenticator plain_cipher key 9 (some bearer) (lit "1") busy_app)
handlers-Kept_example =
    handlers-Kept digest authenticator plain_cipher key 9 nonce (70 ∷ []) (some bearer) (lit "1")
      (some creation) (some patch) busy_app
