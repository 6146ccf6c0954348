-- ===== src/Github/Refresh.antt =====
-- src/github/refresh.rs: the task that fills the cache of required checks. The loop runs on the
-- turns that its select makes; the clocks are given with each turn.
pub mod Burst
pub mod Failures
mod Tests
use github_webhook_exporter.Prelude.{
  ℕ, Bool, List, [], ◌∷◌, ◌++◌, length, Text, Option, none, some, ltb, Result, ok, err,
  if◌then◌else◌,
}
use github_webhook_exporter.Domain.Time.{TimeFormat}
use github_webhook_exporter.Domain.Repository.{RepositoryId}
use github_webhook_exporter.Security.Names.{CanonicalRepositoryName}
use github_webhook_exporter.Telemetry.Workflow.Names.{WorkflowBranch}
use github_webhook_exporter.Telemetry.Workflow.Required.{RequiredChecks}
use github_webhook_exporter.Storage.Sql.{Session}
use github_webhook_exporter.Storage.Tables.{Database}
use github_webhook_exporter.Storage.RequiredCheck.{RequiredCheckStoreError, upsert, get_fresh}
use github_webhook_exporter.Github.Client.{GitHubClientError}

abbrev pub refresh_queue_capacity : ℕ
refresh_queue_capacity = 64

pub record RequiredCheckRefreshRequest : Type 0 where
  pub repository_id : RepositoryId
  pub repository_name : CanonicalRepositoryName
  pub branch : WorkflowBranch

-- `try_send` on the bounded channel: where it is full, the request is dropped.
unfoldable pub request :
    RequiredCheckRefreshRequest
    → List RequiredCheckRefreshRequest
    → List RequiredCheckRefreshRequest
request asked pending =
    if ltb (length pending) refresh_queue_capacity then pending ++ asked ∷ [] else pending

-- The trait, on the state of a client.
pub record RequiredCheckSource (S : Type 0) : Type 0 where
  pub required_checks :
      S → CanonicalRepositoryName → WorkflowBranch → ℕ → Result GitHubClientError RequiredChecks × S

pub record RequiredCheckRefresher (S : Type 0) : Type 0 where
  pub source : S
  pub store : Session Database

-- How a refresh ends, by the outcome that it logs; where the entry is fresh it logs none.
pub data RefreshOutcome : Type 0 where
  fresh cache_read_failed fetch_failed cache_write_failed refreshed : RefreshOutcome

-- A turn of the loop: whether it is cancelled, the request that it receives, the time that the
-- refresh reads, and the time that SQLite writes.
pub record Turn : Type 0 where
  pub cancelled : Bool
  pub asked : RequiredCheckRefreshRequest
  pub now : ℕ
  pub written : Text

abbrev write_outcome {ℓ} : {A : Type ℓ} → Result RequiredCheckStoreError A → RefreshOutcome
write_outcome (ok a) = refreshed
write_outcome (err e) = cache_write_failed

abbrev outcome_with :
    {S : Type 0} → RefreshOutcome → S → Session Database → RefreshOutcome × RequiredCheckRefresher S
outcome_with outcome source store = (outcome, record { source = source; store = store })

-- The refresh after the source has answered.
unfoldable pub answered :
    {S : Type 0}
    → Turn
    → Session Database
    → Result GitHubClientError RequiredChecks × S
    → RefreshOutcome × RequiredCheckRefresher S
unfolding upsert
answered turn store (err e, source) = outcome_with fetch_failed source store
answered turn store (ok checks, source) =
    let (result, store) =
      upsert turn.written turn.asked.repository_id turn.asked.branch checks store in
    outcome_with (write_outcome result) source store

-- Whether the cache answers, and the refresh if it does not.
abbrev pub after_read :
    {S : Type 0}
    → Result RequiredCheckStoreError (Option RequiredChecks)
    → RequiredCheckRefresher S
    → RefreshOutcome × RequiredCheckRefresher S
    → RefreshOutcome × RequiredCheckRefresher S
after_read (ok (some checks)) r later = (fresh, r)
after_read (ok none) r later = later
after_read (err e) r later = (cache_read_failed, r)

module _ {S : Type 0} (f : TimeFormat) (time_to_live : ℕ) (client : RequiredCheckSource S) where
  unfoldable pub refresh :
      Turn → RequiredCheckRefresher S → RefreshOutcome × RequiredCheckRefresher S
  unfolding get_fresh answered
  refresh turn r =
      let (cached, store) =
        get_fresh f time_to_live turn.asked.repository_id turn.asked.branch turn.now r.store in
      after_read cached (record r { store = store })
        (answered turn store
          (client.required_checks r.source turn.asked.repository_name turn.asked.branch turn.now))

  -- The loop ends where it is cancelled, or where the channel is closed.
  unfoldable pub run : List Turn → RequiredCheckRefresher S → RequiredCheckRefresher S
  unfolding refresh
  run [] r = r
  run (turn ∷ turns) r =
      let rest = run turns (refresh turn r).1 in if turn.cancelled then r else rest
