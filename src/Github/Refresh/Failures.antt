-- ===== src/Github/Refresh/Failures.antt =====
-- What a refresh of src/github/refresh.rs leaves behind where it does not write.
use github_webhook_exporter.Prelude.{
  ℕ, ◌⊎◌, inl, inr, ◌≡◌, refl, ◌∙◌, inl, inr, Text, Option, none, some, Result, ok, err,
  Result-cases, arith,
}
use github_webhook_exporter.Domain.Time.{TimeFormat}
use github_webhook_exporter.Domain.Repository.{RepositoryId}
use github_webhook_exporter.Telemetry.Workflow.Names.{WorkflowBranch}
use github_webhook_exporter.Telemetry.Workflow.Required.{RequiredChecks}
use github_webhook_exporter.Storage.Sql.{Session, on_pool}
use github_webhook_exporter.Storage.Tables.{Database}
use github_webhook_exporter.Storage.RequiredCheck.{
  RequiredCheckStoreError, upsert, upsert_checks, get_fresh, select_fresh, freshness_cutoff,
}
use github_webhook_exporter.Github.Client.{GitHubClientError}
use github_webhook_exporter.Github.Refresh.{
  Turn, RequiredCheckSource, RequiredCheckRefresher, RefreshOutcome, fresh, cache_read_failed,
  fetch_failed, cache_write_failed, refreshed, after_read, answered, refresh,
}

get_fresh_committed :
    (f : TimeFormat) (time_to_live now : ℕ) (id : RepositoryId) (branch : WorkflowBranch)
    (s : Session Database)
    → (get_fresh f time_to_live id branch now s).1.committed ≡ s.committed
unfolding get_fresh on_pool select_fresh
get_fresh_committed f time_to_live now id branch s =
    elim (Result-cases (freshness_cutoff f time_to_live now)) [
      | inl (cutoff, e) ↦ ground (arith, e)
      | inr (x, e) ↦ rw e refl
    ]

upsert_fails_clean :
    (now : Text) (id : RepositoryId) (branch : WorkflowBranch) (checks : RequiredChecks)
    (s : Session Database) (e : RequiredCheckStoreError)
    → (upsert now id branch checks s).0 ≡ err e
    → (upsert now id branch checks s).1.committed ≡ s.committed
unfolding upsert on_pool upsert_checks
upsert_fails_clean now id branch checks s e h = ground arith

-- What a refresh does, by what the cache and GitHub say. `store` is the session after the read,
-- and `source` the client after its answer.
abbrev pub Refreshes :
    {S : Type 0}
    → Turn
    → RequiredCheckRefresher S
    → (store : Session Database) → S
    → Result RequiredCheckStoreError (Option RequiredChecks)
    → Result GitHubClientError RequiredChecks
    → RefreshOutcome × RequiredCheckRefresher S
    → Type 0
Refreshes turn r store source (ok (some cached)) answer (outcome, s) =
    (outcome ≡ fresh) × (s.store.committed ≡ r.store.committed) × (s.source ≡ r.source)
Refreshes turn r store source (err e) answer (outcome, s) =
    (outcome ≡ cache_read_failed) × (s.store.committed ≡ r.store.committed) × (s.source ≡ r.source)
Refreshes turn r store source (ok none) (err e) (outcome, s) =
    (outcome ≡ fetch_failed) × (s.store.committed ≡ r.store.committed) × (s.source ≡ source)
Refreshes turn r store source (ok none) (ok checks) (outcome, s) =
    (s.source ≡ source)
    × (((outcome ≡ cache_write_failed)
          × (s.store.committed ≡ r.store.committed)
          × ((x : RequiredCheckStoreError) × ((upsert turn.written turn.asked.repository_id
                  turn.asked.branch checks store).0
                ≡ err x)))
        ⊎ ((outcome ≡ refreshed)
            × ((upsert turn.written turn.asked.repository_id turn.asked.branch checks store).0
                ≡ ok tt)
            × (s.store
                ≡ (upsert turn.written turn.asked.repository_id turn.asked.branch checks store).1)))

module _ {S : Type 0} (turn : Turn) (r : RequiredCheckRefresher S) where
  answered-Refreshes :
      (store : Session Database) (answer : Result GitHubClientError RequiredChecks × S)
      → store.committed ≡ r.store.committed
      → Refreshes turn r store answer.1 (ok none) answer.0 (answered turn store answer)
  unfolding answered
  answered-Refreshes store (err e, source) h = (refl, h, refl)
  answered-Refreshes store (ok checks, source) h =
      elim (Result-cases
        (upsert turn.written turn.asked.repository_id turn.asked.branch checks store).0) [
          | inl (u, e) ↦ rw e (refl, inr (refl, refl, refl))
          | inr (x, e) ↦ rw e (
            refl,
            inl (
              refl,
              upsert_fails_clean turn.written turn.asked.repository_id turn.asked.branch checks
                    store x e
                  ∙ h,
              (x, refl),
            ),
          )
        ]

  after_read-Refreshes :
      (cached : Result RequiredCheckStoreError (Option RequiredChecks)) (store : Session Database)
      (answer : Result GitHubClientError RequiredChecks × S)
      → store.committed ≡ r.store.committed
      → Refreshes turn r store answer.1 cached answer.0
          (after_read cached (record r { store = store }) (answered turn store answer))
  after_read-Refreshes (ok (some checks)) store answer h = (refl, h, refl)
  after_read-Refreshes (ok none) store answer h = answered-Refreshes store answer h
  after_read-Refreshes (err e) store answer h = (refl, h, refl)

-- Whatever SQLite and GitHub answer: where the cache has a fresh entry, or cannot be read, GitHub is
-- not asked and the database is as before. Otherwise GitHub is asked once. Where it fails, or the
-- cache cannot be written, the database is as before; else its checks are written for the
-- request's branch. The outcome says which of the five it was.
pub refresh-Refreshes :
    {S : Type 0} (f : TimeFormat) (time_to_live : ℕ) (client : RequiredCheckSource S) (turn : Turn)
    (r : RequiredCheckRefresher S)
    → Refreshes turn r
        (get_fresh f time_to_live turn.asked.repository_id turn.asked.branch turn.now r.store).1
        (client.required_checks r.source turn.asked.repository_name turn.asked.branch turn.now).1
        (get_fresh f time_to_live turn.asked.repository_id turn.asked.branch turn.now r.store).0
        (client.required_checks r.source turn.asked.repository_name turn.asked.branch turn.now).0
        (refresh f time_to_live client turn r)
unfolding refresh
refresh-Refreshes f time_to_live client turn r =
    let (cached, store) =
      get_fresh f time_to_live turn.asked.repository_id turn.asked.branch turn.now r.store in
    let same =
      get_fresh_committed f time_to_live turn.now turn.asked.repository_id turn.asked.branch
        r.store in
    after_read-Refreshes turn r cached store
      (client.required_checks r.source turn.asked.repository_name turn.asked.branch turn.now) same
