-- ===== src/Storage/WorkflowRun/Contexts.antt =====
-- Writing and reading the contexts of src/storage/workflow_run_store.rs.
use github_webhook_exporter.Prelude.{
  ℕ, ◌≤◌, ◌<◌, ◌≡◌, refl, Bool, true, false, [], ◌∷◌, find, any, length, lit, Text, text_eq,
  lookup_text, Option, none, some, ok, arith,
}
use github_webhook_exporter.Prelude.Options.{map_option}
use github_webhook_exporter.Domain.Repository.{RepositoryId}
use github_webhook_exporter.Telemetry.Workflow.Names.{WorkflowBranch, sanitize_branch}
use github_webhook_exporter.Telemetry.Workflow.Vocabulary.{
  WorkflowRunId, WorkflowRunAttempt, WorkflowEvent, pull_request, merge_group, push, other_event,
  event_as_str,
}
use github_webhook_exporter.Telemetry.Workflow.Trace.{WorkflowRunContext}
use github_webhook_exporter.Storage.Sql.{Session, on_pool}
use github_webhook_exporter.Storage.Tables.{WorkflowRunRow, Database, check_run}
use github_webhook_exporter.Storage.Upsert
use github_webhook_exporter.Storage.WorkflowRun.{
  is_attempt_row, context_row, upsert_context, upsert, select_context, stored_event,
  validated_stored_branch, into_context, transposed, get,
}
use github_webhook_exporter.Storage.RequiredCheck.Fresh.{Serves}

-- A branch that `WorkflowBranch::sanitize` gives.
abbrev pub IsSanitized : Option WorkflowBranch → Type 0
IsSanitized none = Unit {0}
IsSanitized (some b) =
    (1 ≤ length b.text) × (length b.text ≤ 255) × (sanitize_branch b.text ≡ some b)

-- A context as the projection makes it.
pub record IsContext (c : WorkflowRunContext) : Type 0 where
  pub run : 0 < c.run_id.id
  pub attempt : 0 < c.run_attempt.attempt
  pub source : IsSanitized c.source_branch
  pub target : IsSanitized c.target_branch

stored-event_as_str : (e : WorkflowEvent) → stored_event (event_as_str e) ≡ ok e
unfolding stored_event event_as_str lookup_text
stored-event_as_str pull_request = refl
stored-event_as_str merge_group = refl
stored-event_as_str push = refl
stored-event_as_str other_event = refl

validated-stored :
    (b : Option WorkflowBranch)
    → IsSanitized b
    → validated_stored_branch (map_option (λ (b : WorkflowBranch). b.text) b) ≡ ok b
unfolding validated_stored_branch
validated-stored none h = refl
validated-stored (some b) h = rw h.2 refl

into_context-context_row :
    (repository : ℕ) (c : WorkflowRunContext) (now : Text) (k : ℕ)
    → IsContext c
    → into_context (context_row repository c now k) c.run_id c.run_attempt ≡ ok c
unfolding into_context
into_context-context_row repository c now k h =
    rw
      (
        stored-event_as_str c.event,
        validated-stored c.source_branch h.source,
        validated-stored c.target_branch h.target,
      )
      refl

abbrev event_allowed : Text → Bool
event_allowed s =
    any (text_eq s) (lit "pull_request" ∷ lit "merge_group" ∷ lit "push" ∷ lit "other" ∷ [])

event-allowed : (e : WorkflowEvent) → event_allowed (event_as_str e) ≡ true
unfolding event_as_str text_eq
event-allowed pull_request = refl
event-allowed merge_group = refl
event-allowed push = refl
event-allowed other_event = refl

checked_context :
    (repository : ℕ) (c : WorkflowRunContext) (now : Text)
    → IsContext c
    → check_run (context_row repository c now 0) ≡ true
unfolding check_run
checked_context repository c now h = ground (arith, event-allowed c.event, h.run, h.attempt)

-- The statement succeeds, and its effect.
upsert_runs :
    (repository_id : RepositoryId) (c : WorkflowRunContext) (now : Text) (s : Session Database)
    → Serves repository_id s
    → IsContext c
    → ((upsert now repository_id c s).0 ≡ ok tt)
      × ((upsert now repository_id c s).1.faults ≡ [])
      × (Upsert.upsert
            (λ (r : WorkflowRunRow). r.rowid)
            true
            true
            (is_attempt_row repository_id.id c.run_id.id c.run_attempt.attempt)
            (context_row repository_id.id c now)
            s.committed.workflow_run_contexts
          ≡ ok (upsert now repository_id c s).1.committed.workflow_run_contexts)
unfolding upsert on_pool upsert_context
upsert_runs repository_id c now s serves h =
    let (rows, e) =
      Upsert.upsert_served (λ (r : WorkflowRunRow). r.rowid)
        (is_attempt_row repository_id.id c.run_id.id c.run_attempt.attempt)
        (context_row repository_id.id c now) s.committed.workflow_run_contexts in
    rw (serves.0, checked_context repository_id.id c now h, serves.1, e) (refl, refl, refl)

get-served :
    (repository_id : RepositoryId) (run_id : WorkflowRunId) (run_attempt : WorkflowRunAttempt)
    (s : Session Database)
    → s.faults ≡ []
    → (get repository_id run_id run_attempt s).0
      ≡ transposed run_id run_attempt (
          find
            (is_attempt_row repository_id.id run_id.id run_attempt.attempt)
            s.committed.workflow_run_contexts)
unfolding get on_pool select_context
get-served repository_id run_id run_attempt s h = rw h refl

same_attempt :
    (repository : ℕ) (c : WorkflowRunContext) (now : Text) (k : ℕ)
    → is_attempt_row repository c.run_id.id c.run_attempt.attempt (context_row repository c now k)
      ≡ true
unfolding is_attempt_row
same_attempt repository c now k = ground arith

-- Where the repository is stored and SQLite serves the two calls, a run's context is stored and
-- read back unchanged.
pub get-upsert :
    (repository_id : RepositoryId) (c : WorkflowRunContext) (now : Text) (s : Session Database)
    → Serves repository_id s
    → IsContext c
    → ((upsert now repository_id c s).0 ≡ ok tt)
      × ((get repository_id c.run_id c.run_attempt (upsert now repository_id c s).1).0
          ≡ ok (some c))
get-upsert repository_id c now s serves h =
    let (done, quiet, rows) = upsert_runs repository_id c now s serves h in
    let (k, found) =
      Upsert.find-upsert (λ (r : WorkflowRunRow). r.rowid)
        (is_attempt_row repository_id.id c.run_id.id c.run_attempt.attempt)
        (context_row repository_id.id c now)
        (is_attempt_row repository_id.id c.run_id.id c.run_attempt.attempt) (λ r out. out) true true
        _ _ (λ k. same_attempt repository_id.id c now k) rows in
    (
      done,
      rw
          (
            get-served repository_id c.run_id c.run_attempt (upsert now repository_id c s).1 quiet,
            found,
            transposed,
            into_context-context_row repository_id.id c now k h,
          )
          refl,
    )

apart :
    (repository repository' run run' attempt attempt' : ℕ) (r : WorkflowRunRow)
    → (repository ≡ repository' → run ≡ run' → attempt ≡ attempt' → ⊥)
    → is_attempt_row repository run attempt r ≡ true
    → is_attempt_row repository' run' attempt' r ≡ false
unfolding is_attempt_row
apart repository repository' run run' attempt attempt' r h e = ground (arith, h)

-- The context of any other attempt is as it was before.
pub get-upsert_other :
    (repository_id other : RepositoryId) (c : WorkflowRunContext) (run_id : WorkflowRunId)
    (run_attempt : WorkflowRunAttempt) (now : Text) (s : Session Database)
    → Serves repository_id s
    → IsContext c
    → (repository_id.id ≡ other.id
        → c.run_id.id ≡ run_id.id
        → c.run_attempt.attempt ≡ run_attempt.attempt
        → ⊥)
    → (get other run_id run_attempt (upsert now repository_id c s).1).0
      ≡ (get other run_id run_attempt s).0
get-upsert_other repository_id other c run_id run_attempt now s serves h differs =
    let (done, quiet, rows) = upsert_runs repository_id c now s serves h in
    let kept =
      Upsert.find-upsert_other (λ (r : WorkflowRunRow). r.rowid)
        (is_attempt_row repository_id.id c.run_id.id c.run_attempt.attempt)
        (context_row repository_id.id c now) true true
        (is_attempt_row other.id run_id.id run_attempt.attempt) _ _
        (λ r e. apart _ _ _ _ _ _ r differs e)
        (λ k.
          apart _ _ _ _ _ _ (context_row repository_id.id c now k) differs
            (same_attempt repository_id.id c now k))
        rows in
    rw
      (
        get-served other run_id run_attempt (upsert now repository_id c s).1 quiet,
        get-served other run_id run_attempt s serves.0,
        kept,
      )
      refl
