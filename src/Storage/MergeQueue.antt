-- ===== src/Storage/MergeQueue.antt =====
-- src/storage/merge_queue_store.rs: durable merge-queue attempts.
pub mod Atomic
pub mod Invariant
pub mod Machine
pub mod Refinement
mod Tests
use github_webhook_exporter.Prelude.{
  ℕ, zero, suc, ◌+◌, ◌==◌, ◌&&◌, Bool, true, false, not, Option, none, some, List, [], ◌∷◌, ◌++◌,
  any, all, keep, map, Text, lit, text_eq, Result, ok, err, ok_or, if◌then◌else◌,
}
use github_webhook_exporter.Domain.Time.{TimeFormat}
use github_webhook_exporter.Domain.MergeQueue.{
  PullRequestNumber, QueueTimestamp, QueueCompletion, pending, no_reason, outcome_as_str,
  reason_as_str, from_datetime, parse_timestamp,
}
use github_webhook_exporter.Storage.Sql.{
  SqlxError, database, sqlite_is_busy_or_locked, Sql, begin, commit, in_transaction, on_pool, lift,
  ◌>>=◌, ◌>>◌,
}
use github_webhook_exporter.Storage.Tables.{
  AttemptRow, Database, is_null, check_attempt, repository_exists, next_rowid,
}
use github_webhook_exporter.Storage.Prune.{Columns, prune, prune_batch_size}

pub data EnqueueTransition : Type 0 where
  created already_active : EnqueueTransition

pub data CompletionTransition : Type 0 where
  completed : QueueTimestamp → CompletionTransition
  already_completed missing_active_attempt : CompletionTransition

pub data MergeQueueStoreError : Type 0 where
  unavailable internal : MergeQueueStoreError

unfoldable pub map_sqlx_error : SqlxError → MergeQueueStoreError
map_sqlx_error e = if sqlite_is_busy_or_locked e then unavailable else internal

-- SQLite's extended result codes for a failed CHECK and a failed foreign key.
abbrev check_failed : SqlxError
check_failed = database (some (lit "275")) false

abbrev foreign_key_failed : SqlxError
foreign_key_failed = database (some (lit "787")) false

unfoldable pub is_attempt_of : ℕ → ℕ → AttemptRow → Bool
is_attempt_of repository pull_request r =
    r.repository_id == repository && r.pull_request_number == pull_request

unfoldable pub is_active_of : ℕ → ℕ → AttemptRow → Bool
unfolding is_attempt_of
is_active_of repository pull_request r =
    is_attempt_of repository pull_request r && is_null r.completed_at

-- `INSERT … ON CONFLICT(repository_id, pull_request_number) WHERE completed_at IS NULL DO NOTHING`,
-- with `rows_affected`.
unfoldable pub insert_attempt : AttemptRow → Database → Result SqlxError (ℕ × Database)
unfolding check_attempt is_active_of repository_exists
insert_attempt r d =
    if not (check_attempt r)
    then err check_failed
    else if any (is_active_of r.repository_id r.pull_request_number) d.merge_queue_attempts
    then ok (0, d)
    else if not (repository_exists r.repository_id d.repositories)
    then err foreign_key_failed
    else ok (1, record d { merge_queue_attempts = d.merge_queue_attempts ++ r ∷ [] })

abbrev pub pending_row : ℕ → ℕ → PullRequestNumber → QueueTimestamp → AttemptRow
pending_row id repository pull_request enqueued_at = record {
  id = id;
  repository_id = repository;
  pull_request_number = pull_request.number;
  enqueued_at = enqueued_at.canonical;
  completed_at = none;
  outcome = outcome_as_str pending;
  reason_code = reason_as_str no_reason;
}

unfoldable pub insert_pending :
    ℕ → PullRequestNumber → QueueTimestamp → Database → Result SqlxError (ℕ × Database)
unfolding insert_attempt next_rowid
insert_pending repository pull_request enqueued_at d =
    insert_attempt
      (pending_row (next_rowid d.merge_queue_attempts) repository pull_request enqueued_at) d

unfoldable pub enqueue :
    ℕ → PullRequestNumber → QueueTimestamp → Sql Database MergeQueueStoreError EnqueueTransition
unfolding begin commit in_transaction insert_pending map_sqlx_error
enqueue repository pull_request enqueued_at = do
  begin map_sqlx_error
  rows_affected ← in_transaction map_sqlx_error (insert_pending repository pull_request enqueued_at)
  commit map_sqlx_error
  lift (ok (if rows_affected == 1 then created else already_active))

abbrev pub completed_row : QueueCompletion → AttemptRow → AttemptRow
completed_row c r = record r {
  completed_at = some c.completed_at.canonical;
  outcome = outcome_as_str c.outcome;
  reason_code = reason_as_str c.reason_code;
}

-- The rows after `UPDATE … SET … WHERE …`.
unfoldable pub update_where :
    (AttemptRow → Bool) → (AttemptRow → AttemptRow) → List AttemptRow → List AttemptRow
update_where p f [] = []
update_where p f (r ∷ rows) = (if p r then f r else r) ∷ update_where p f rows

abbrev head_enqueued_at : List AttemptRow → Option Text
head_enqueued_at [] = none
head_enqueued_at (r ∷ rows) = some r.enqueued_at

-- `UPDATE … WHERE … completed_at IS NULL RETURNING enqueued_at`, with `fetch_optional`.
unfoldable pub complete_active :
    ℕ → PullRequestNumber → QueueCompletion → Database → Result SqlxError (Option Text × Database)
unfolding check_attempt is_active_of update_where
complete_active repository pull_request c d =
    let active = is_active_of repository pull_request.number in
    let hits = keep active d.merge_queue_attempts in
    if all check_attempt (map (completed_row c) hits)
    then ok (
      head_enqueued_at hits,
      record d {
        merge_queue_attempts = update_where active (completed_row c) d.merge_queue_attempts;
      },
    )
    else err check_failed

-- `SELECT EXISTS(… completed_at IS NOT NULL)`.
unfoldable pub completed_exists :
    ℕ → PullRequestNumber → Database → Result SqlxError (Bool × Database)
unfolding is_attempt_of
completed_exists repository pull_request d = ok (
  any (λ r. is_attempt_of repository pull_request.number r && not (is_null r.completed_at))
      d.merge_queue_attempts,
  d,
)

classify :
    TimeFormat
    → ℕ
    → PullRequestNumber
    → Option Text
    → Sql Database MergeQueueStoreError CompletionTransition
unfolding parse_timestamp completed_exists in_transaction map_sqlx_error
classify f repository pull_request (some enqueued_at) = do
  parsed ← lift (ok_or (parse_timestamp f enqueued_at) internal)
  lift (ok (completed parsed))
classify f repository pull_request none = do
  exists ← in_transaction map_sqlx_error (completed_exists repository pull_request)
  lift (ok (if exists then already_completed else missing_active_attempt))

unfoldable pub complete :
    TimeFormat
    → ℕ
    → PullRequestNumber
    → QueueCompletion
    → Sql Database MergeQueueStoreError CompletionTransition
unfolding begin commit in_transaction complete_active classify map_sqlx_error
complete f repository pull_request completion = do
  begin map_sqlx_error
  enqueued_at ← in_transaction map_sqlx_error (complete_active repository pull_request completion)
  transition ← classify f repository pull_request enqueued_at
  commit map_sqlx_error
  lift (ok transition)

abbrev pub attempt_columns : Columns AttemptRow
attempt_columns = record { id = λ r. r.id; stamp = λ r. r.completed_at }

unfoldable pub prune_attempts : Text → Database → Result SqlxError (ℕ × Database)
unfolding prune
prune_attempts cutoff d =
    let (deleted, rows) = prune attempt_columns prune_batch_size cutoff d.merge_queue_attempts in
    ok (deleted, record d { merge_queue_attempts = rows })

unfoldable pub prune_completed_batch : TimeFormat → ℕ → Sql Database MergeQueueStoreError ℕ
unfolding from_datetime on_pool prune_attempts map_sqlx_error
prune_completed_batch f cutoff = do
  cutoff ← lift (ok_or (from_datetime f cutoff) internal)
  on_pool map_sqlx_error (prune_attempts cutoff.canonical)
