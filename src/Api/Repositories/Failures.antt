-- ===== src/Api/Repositories/Failures.antt =====
-- What a request that src/api/repositories.rs refuses leaves behind.
use github_webhook_exporter.Prelude.{
  ℕ, ◌≡◌, refl, List, Text, Option, Result, ok, err, ok_or, map_err, ◌>>=◌,
}
use github_webhook_exporter.Security.Secrets.{Crypto, new_secret}
use github_webhook_exporter.Security.Names
use github_webhook_exporter.Domain.Repository.{RepositoryId}
use github_webhook_exporter.Storage.Repository
use github_webhook_exporter.Security.Admin.{AdminAuthenticator, Authenticated}
use github_webhook_exporter.Storage.Sql.{Session}
use github_webhook_exporter.Storage.Tables.{Database}
use github_webhook_exporter.Storage.Repository.{RepositoryStoreError}
use github_webhook_exporter.Storage.Repository.Atomic.{
  create_fails_clean, update_fails_clean, delete_fails_clean,
}
use github_webhook_exporter.Api.Errors.{AppError, invalid_request}
use github_webhook_exporter.Api.Repositories.{
  CreateRepositoryRequest, PatchRepositoryRequest, AppState, Answer, created, found, no_content,
  after, answer, authorized, parse_repository_id, mutation_of, increment, decrement,
  create_repository, update_repository, delete_repository,
}

-- The committed database and the gauge are as before, if the answer is an error.
abbrev pub Kept : AppState → Result AppError Answer × AppState → Type 0
Kept s (ok a, t) = Unit {0}
Kept s (err e, t) = (t.store.committed ≡ s.store.committed) × (t.configurations ≡ s.configurations)

after-Kept :
    {A : Type 0} (s : AppState) (r : Result AppError A)
    (rest : A → AppState → Result AppError Answer × AppState)
    → ((a : A) → Kept s (rest a s))
    → Kept s (after r rest s)
after-Kept s (err e) rest h = (refl, refl)
after-Kept s (ok a) rest h = h a

answer-Kept :
    {A : Type 0} (s : AppState) (fresh : ℕ) (gauge : ℕ → ℕ) (respond : A → Answer)
    (p : Result RepositoryStoreError A × Session Database)
    → ((e : RepositoryStoreError) → p.0 ≡ err e → p.1.committed ≡ s.store.committed)
    → Kept s (answer fresh gauge respond s.configurations p)
answer-Kept s fresh gauge respond (ok a, store) h = tt
answer-Kept s fresh gauge respond (err e, store) h = (h e refl, refl)

-- Whatever the header, the path and the body of a request to create, to update or to delete a
-- repository, and whatever SQLite and the cipher answer: where the handler answers an error, the
-- committed database and the gauge of configured repositories are as before.
pub handlers-Kept :
    (sha256 : List ℕ → List ℕ) (authenticator : AdminAuthenticator) (c : Crypto) (key : List ℕ)
    (fresh : ℕ) (nonce : List ℕ) (now : Text) (authorization : Option Text) (raw_id : Text)
    (creation : Option CreateRepositoryRequest) (patch : Option PatchRepositoryRequest)
    (s : AppState)
    → Kept s (create_repository sha256 authenticator c key fresh nonce now authorization creation s)
      × Kept s (
          update_repository sha256 authenticator c key fresh nonce now authorization raw_id patch s)
      × Kept s (delete_repository sha256 authenticator c key fresh authorization raw_id s)
unfolding create_repository update_repository delete_repository
handlers-Kept sha256 authenticator c key fresh nonce now authorization raw_id creation patch s =
    let admin : Result AppError Authenticated =
      authorized sha256 authenticator c key fresh authorization in
    let id_of : Result AppError RepositoryId = parse_repository_id raw_id in
    (
      after-Kept s admin _ λ _. after-Kept s (ok_or creation invalid_request) _ λ request.
          after-Kept s (ok_or (Names.new request.full_name) invalid_request) _ λ name.
            after-Kept s (map_err (λ e. invalid_request) (new_secret request.webhook_secret)) _
              λ secret.
                answer-Kept s fresh increment created
                  (Repository.create c key nonce now name secret request.enabled s.store)
                  (create_fails_clean c key s.store nonce now name secret request.enabled),
      after-Kept s admin _ λ _. after-Kept s id_of _ λ id.
          after-Kept s (ok_or patch invalid_request >>= mutation_of) _ λ mutation.
            answer-Kept s fresh (λ n. n) found
              (Repository.update c key nonce now id mutation s.store)
              (update_fails_clean c key s.store nonce now id mutation),
      after-Kept s admin _ λ _. after-Kept s id_of _ λ id.
          answer-Kept s fresh decrement (λ _. no_content) (Repository.delete c key id s.store)
            (delete_fails_clean c key s.store id),
    )
