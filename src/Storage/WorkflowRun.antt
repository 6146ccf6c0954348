-- ===== src/Storage/WorkflowRun.antt =====
-- src/storage/workflow_run_store.rs: the context of workflow runs.
pub mod Contexts
mod Tests
use github_webhook_exporter.Prelude.{
  ℕ, ◌==◌, ◌&&◌, Bool, List, [], ◌∷◌, find, Text, lit, text_eq, lookup_text, Option, none, some,
  Result, ok, err, ok_or, if◌then◌else◌,
}
use github_webhook_exporter.Prelude.Options.{map_option}
use github_webhook_exporter.Domain.Time.{TimeFormat}
use github_webhook_exporter.Domain.Repository.{RepositoryId}
use github_webhook_exporter.Telemetry.Workflow.Names.{WorkflowBranch, sanitize_branch}
use github_webhook_exporter.Telemetry.Workflow.Vocabulary.{
  WorkflowRunId, WorkflowRunAttempt, WorkflowEvent, pull_request, merge_group, push, other_event,
  event_as_str,
}
use github_webhook_exporter.Telemetry.Workflow.Trace.{WorkflowRunContext}
use github_webhook_exporter.Storage.Sql.{
  SqlxError, sqlite_is_busy_or_locked, Sql, on_pool, lift, ◌>>=◌,
}
use github_webhook_exporter.Storage.Tables.{WorkflowRunRow, Database, check_run, repository_exists}
use github_webhook_exporter.Storage.Prune.{Columns, prune, prune_batch_size}
use github_webhook_exporter.Storage.Upsert

pub data WorkflowRunStoreError : Type 0 where
  unavailable internal : WorkflowRunStoreError

unfoldable pub map_sqlx_error : SqlxError → WorkflowRunStoreError
map_sqlx_error e = if sqlite_is_busy_or_locked e then unavailable else internal

unfoldable pub is_attempt_row : ℕ → ℕ → ℕ → WorkflowRunRow → Bool
is_attempt_row repository run attempt r =
    r.repository_id == repository && r.workflow_run_id == run && r.workflow_run_attempt == attempt

abbrev pub context_row : ℕ → WorkflowRunContext → Text → ℕ → WorkflowRunRow
context_row repository context now rowid = record {
  rowid = rowid;
  repository_id = repository;
  workflow_run_id = context.run_id.id;
  workflow_run_attempt = context.run_attempt.attempt;
  event = event_as_str context.event;
  source_branch = map_option (λ (b : WorkflowBranch). b.text) context.source_branch;
  target_branch = map_option (λ (b : WorkflowBranch). b.text) context.target_branch;
  updated_at = now;
}

abbrev stored :
    Database → Result SqlxError (List WorkflowRunRow) → Result SqlxError (Unit {0} × Database)
stored d (ok rows) = ok (tt, record d { workflow_run_contexts = rows })
stored d (err e) = err e

-- `now` is SQLite's clock.
unfoldable pub upsert_context :
    Text → ℕ → WorkflowRunContext → Database → Result SqlxError (Unit {0} × Database)
unfolding Upsert.upsert check_run repository_exists is_attempt_row event_as_str
upsert_context now repository context d = stored d (
    Upsert.upsert (λ (r : WorkflowRunRow). r.rowid)
      (check_run (context_row repository context now 0))
      (repository_exists repository d.repositories)
      (is_attempt_row repository context.run_id.id context.run_attempt.attempt)
      (context_row repository context now) d.workflow_run_contexts)

unfoldable pub upsert :
    Text → RepositoryId → WorkflowRunContext → Sql Database WorkflowRunStoreError (Unit {0})
unfolding on_pool upsert_context map_sqlx_error
upsert now repository_id context =
    on_pool map_sqlx_error (upsert_context now repository_id.id context)

-- `SELECT event, source_branch, target_branch …`, with `fetch_optional`.
unfoldable pub select_context :
    ℕ → ℕ → ℕ → Database → Result SqlxError (Option WorkflowRunRow × Database)
unfolding is_attempt_row
select_context repository run attempt d =
    ok (find (is_attempt_row repository run attempt) d.workflow_run_contexts, d)

unfoldable pub stored_event : Text → Result WorkflowRunStoreError WorkflowEvent
unfolding lookup_text
stored_event event =
    ok_or
      (lookup_text
        ((lit "pull_request", pull_request)
          ∷ (lit "merge_group", merge_group)
          ∷ (lit "push", push)
          ∷ (lit "other", other_event)
          ∷ [])
        event)
      internal

abbrev branch_result : Option WorkflowBranch → Result WorkflowRunStoreError (Option WorkflowBranch)
branch_result none = err internal
branch_result (some branch) = ok (some branch)

unfoldable pub validated_stored_branch :
    Option Text → Result WorkflowRunStoreError (Option WorkflowBranch)
unfolding sanitize_branch
validated_stored_branch none = ok none
validated_stored_branch (some value) = branch_result (sanitize_branch value)

abbrev with_parts :
    WorkflowRunId
    → WorkflowRunAttempt
    → Result WorkflowRunStoreError WorkflowEvent
    → Result WorkflowRunStoreError (Option WorkflowBranch)
    → Result WorkflowRunStoreError (Option WorkflowBranch)
    → Result WorkflowRunStoreError WorkflowRunContext
with_parts run_id run_attempt (err e) source target = err e
with_parts run_id run_attempt (ok event) (err e) target = err e
with_parts run_id run_attempt (ok event) (ok source) (err e) = err e
with_parts run_id run_attempt (ok event) (ok source) (ok target) = ok (record {
  run_id = run_id;
  run_attempt = run_attempt;
  event = event;
  source_branch = source;
  target_branch = target;
})

unfoldable pub into_context :
    WorkflowRunRow
    → WorkflowRunId
    → WorkflowRunAttempt
    → Result WorkflowRunStoreError WorkflowRunContext
unfolding stored_event validated_stored_branch
into_context row run_id run_attempt =
    with_parts run_id run_attempt (stored_event row.event)
      (validated_stored_branch row.source_branch) (validated_stored_branch row.target_branch)

-- `row.map(…).transpose()`.
abbrev pub transposed :
    WorkflowRunId
    → WorkflowRunAttempt
    → Option WorkflowRunRow
    → Result WorkflowRunStoreError (Option WorkflowRunContext)
transposed run_id run_attempt none = ok none
transposed run_id run_attempt (some row) = elim (into_context row run_id run_attempt) [
  | ok context ↦ ok (some context)
  | err e ↦ err e
]

unfoldable pub get :
    RepositoryId
    → WorkflowRunId
    → WorkflowRunAttempt
    → Sql Database WorkflowRunStoreError (Option WorkflowRunContext)
unfolding on_pool select_context map_sqlx_error into_context
get repository_id run_id run_attempt = do
  row ← on_pool map_sqlx_error (select_context repository_id.id run_id.id run_attempt.attempt)
  lift (transposed run_id run_attempt row)

abbrev pub run_columns : Columns WorkflowRunRow
run_columns = record { id = λ r. r.rowid; stamp = λ r. some r.updated_at }

unfoldable pub prune_contexts : Text → Database → Result SqlxError (ℕ × Database)
unfolding prune
prune_contexts cutoff d =
    let (deleted, rows) = prune run_columns prune_batch_size cutoff d.workflow_run_contexts in
    ok (deleted, record d { workflow_run_contexts = rows })

unfoldable pub prune_batch : TimeFormat → ℕ → Sql Database WorkflowRunStoreError ℕ
unfolding on_pool prune_contexts map_sqlx_error
prune_batch f cutoff = do
  cutoff ← lift (ok_or (f.format_millis cutoff) internal)
  on_pool map_sqlx_error (prune_contexts cutoff)
