-- ===== src/Storage/WorkflowJobLink.antt =====
-- src/storage/workflow_job_link_store.rs: the exported identities of workflow-job traces.
pub mod Links
mod Tests
use github_webhook_exporter.Prelude.{
  ℕ, ◌+◌, ◌-◌, ◌^◌, ◌==◌, ◌&&◌, ◌||◌, Bool, not, List, [], ◌∷◌, keep, map, take, filter_map, Text,
  lit, text_eq, lookup_text, Option, none, some, ℤ, pos, negsuc, leb_ℤ, Result, ok, err, ok_or, ltb,
  leb, if◌then◌else◌,
}
use github_webhook_exporter.Prelude.Options.{map_option, and_then}
use github_webhook_exporter.Domain.Time.{TimeFormat}
use github_webhook_exporter.Domain.Repository.{RepositoryId}
use github_webhook_exporter.Telemetry.Workflow.Names.{DisplayName, sanitize_display_name}
use github_webhook_exporter.Telemetry.Workflow.Vocabulary.{
  WorkflowRunId, WorkflowRunAttempt, WorkflowJobId, new_job_id, WorkflowConclusion,
  normalize_conclusion, conclusion_as_str,
}
use github_webhook_exporter.Telemetry.Workflow.Timing.{
  SystemTime, TimingSource, reported, fallback, timing_source_as_str, HistoricalTiming,
  derived_timing,
}
use github_webhook_exporter.Telemetry.Workflow.Trace.{WorkflowJobTrace}
use github_webhook_exporter.Telemetry.Pipeline.{
  WorkflowJobTraceIdentity, is_valid, PipelineJobSummary,
}
use github_webhook_exporter.Storage.Sql.{
  SqlxError, sqlite_is_busy_or_locked, Sql, on_pool, lift, ◌>>=◌, ◌>>◌,
}
use github_webhook_exporter.Storage.Tables.{
  WorkflowJobLinkRow, Database, check_link, repository_exists,
}
use github_webhook_exporter.Storage.Prune.{Columns, prune, prune_batch_size}
use github_webhook_exporter.Storage.Upsert

pub data WorkflowJobLinkStoreError : Type 0 where
  unavailable internal : WorkflowJobLinkStoreError

unfoldable pub map_sqlx_error : SqlxError → WorkflowJobLinkStoreError
map_sqlx_error e = if sqlite_is_busy_or_locked e then unavailable else internal

-- The `opentelemetry` crate's hexadecimal form of identifiers.
pub record Hex : Type 0 where
  pub trace_to_hex : ℕ → Text
  pub trace_from_hex : Text → Option ℕ
  pub span_to_hex : ℕ → Text
  pub span_from_hex : Text → Option ℕ

-- `duration_since(UNIX_EPOCH)`, which fails before the epoch, and `i64::try_from`.
unfoldable pub system_time_to_nanos : SystemTime → Option ℤ
system_time_to_nanos (pos n) = if ltb n (2 ^ 63) then some (pos n) else none
system_time_to_nanos (negsuc n) = none

unfoldable pub nanos_to_system_time : ℤ → Option SystemTime
nanos_to_system_time (pos n) = some (pos n)
nanos_to_system_time (negsuc n) = none

unfoldable pub is_link_of : ℕ → ℕ → ℕ → WorkflowJobLinkRow → Bool
is_link_of repository run attempt r =
    r.repository_id == repository && r.workflow_run_id == run && r.workflow_run_attempt == attempt

unfoldable pub is_job_row : ℕ → ℕ → ℕ → ℕ → WorkflowJobLinkRow → Bool
unfolding is_link_of
is_job_row repository run attempt job r =
    is_link_of repository run attempt r && r.workflow_job_id == job

abbrev pub link_row :
    Hex → ℕ → WorkflowJobTrace → WorkflowJobTraceIdentity → ℤ → ℤ → Text → ℕ → WorkflowJobLinkRow
link_row hex repository job identity started completed now rowid = record {
  rowid = rowid;
  repository_id = repository;
  workflow_run_id = job.run_id.id;
  workflow_run_attempt = job.run_attempt.attempt;
  workflow_job_id = job.job_id.id;
  job_name = map_option (λ (n : DisplayName). n.text) job.job_name;
  conclusion = conclusion_as_str job.conclusion;
  trace_id = hex.trace_to_hex identity.trace_id;
  span_id = hex.span_to_hex identity.span_id;
  started_at_nanos = started;
  completed_at_nanos = completed;
  timing_source = timing_source_as_str job.timing.source;
  updated_at = now;
}

abbrev stored :
    Database → Result SqlxError (List WorkflowJobLinkRow) → Result SqlxError (Unit {0} × Database)
stored d (ok rows) = ok (tt, record d { workflow_job_links = rows })
stored d (err e) = err e

-- The row is given as a function of its `rowid`; `now` is SQLite's clock.
unfoldable pub upsert_link :
    (ℕ → WorkflowJobLinkRow) → Database → Result SqlxError (Unit {0} × Database)
unfolding Upsert.upsert check_link repository_exists is_job_row
upsert_link row d =
    let key = row 0 in
    stored d (
      Upsert.upsert (λ (r : WorkflowJobLinkRow). r.rowid) (check_link key)
        (repository_exists key.repository_id d.repositories)
        (is_job_row key.repository_id key.workflow_run_id key.workflow_run_attempt
          key.workflow_job_id)
        row d.workflow_job_links)

module _ (hex : Hex) where
  unfoldable pub record_link :
      Text
      → RepositoryId
      → WorkflowJobTrace
      → WorkflowJobTraceIdentity
      → Sql Database WorkflowJobLinkStoreError (Unit {0})
  unfolding is_valid system_time_to_nanos on_pool upsert_link map_sqlx_error conclusion_as_str
      timing_source_as_str
  record_link now repository_id job identity = do
    lift (if not (is_valid identity) then err internal else ok tt)
    started ← lift (ok_or (system_time_to_nanos job.timing.start) internal)
    completed ← lift (ok_or (system_time_to_nanos job.timing.end) internal)
    on_pool map_sqlx_error
        (upsert_link (link_row hex repository_id.id job identity started completed now))

-- `ORDER BY started_at_nanos, workflow_job_id`.
unfoldable pub link_before : WorkflowJobLinkRow → WorkflowJobLinkRow → Bool
link_before r s =
    not (leb_ℤ s.started_at_nanos r.started_at_nanos)
    || (leb_ℤ r.started_at_nanos s.started_at_nanos
        && leb_ℤ s.started_at_nanos r.started_at_nanos
        && leb r.workflow_job_id s.workflow_job_id)

unfoldable pub insert_link : WorkflowJobLinkRow → List WorkflowJobLinkRow → List WorkflowJobLinkRow
unfolding link_before
insert_link r [] = r ∷ []
insert_link r (s ∷ rows) = if link_before r s then r ∷ s ∷ rows else s ∷ insert_link r rows

unfoldable pub sort_links : List WorkflowJobLinkRow → List WorkflowJobLinkRow
unfolding insert_link
sort_links [] = []
sort_links (r ∷ rows) = insert_link r (sort_links rows)

unfoldable pub select_links :
    ℕ → ℕ → ℕ → ℕ → Database → Result SqlxError (List WorkflowJobLinkRow × Database)
unfolding is_link_of sort_links
select_links repository run attempt limit d =
    ok (take limit (sort_links (keep (is_link_of repository run attempt) d.workflow_job_links)), d)

unfoldable pub normalize_stored_conclusion : Text → Option WorkflowConclusion
unfolding normalize_conclusion conclusion_as_str text_eq
normalize_stored_conclusion value =
    let conclusion = normalize_conclusion (some value) in
    if text_eq (conclusion_as_str conclusion) value then some conclusion else none

unfoldable pub stored_source : Text → Option TimingSource
unfolding lookup_text
stored_source = lookup_text ((lit "reported", reported) ∷ (lit "fallback", fallback) ∷ [])

-- `Result::ok`.
abbrev ok_of {ℓ κ} : {E : Type ℓ} {A : Type κ} → Result E A → Option A
ok_of (ok a) = some a
ok_of (err e) = none

abbrev accept_identity : WorkflowJobTraceIdentity → Option WorkflowJobTraceIdentity
accept_identity identity = if not (is_valid identity) then none else some identity

module _ (hex : Hex) where
  -- The row is dropped where a value is not one that could be written.
  unfoldable pub into_summary : WorkflowJobLinkRow → Option PipelineJobSummary
  unfolding new_job_id normalize_stored_conclusion is_valid nanos_to_system_time stored_source
      derived_timing sanitize_display_name
  into_summary row = and_then (new_job_id (pos row.workflow_job_id)) λ job_id.
      and_then (normalize_stored_conclusion row.conclusion) λ conclusion.
        and_then (hex.trace_from_hex row.trace_id) λ trace_id.
          and_then (hex.span_from_hex row.span_id) λ span_id.
            and_then (accept_identity (record { trace_id = trace_id; span_id = span_id }))
              λ identity. and_then (nanos_to_system_time row.started_at_nanos) λ start.
                and_then (nanos_to_system_time row.completed_at_nanos) λ end.
                  and_then (stored_source row.timing_source) λ source.
                    map_option
                      (λ timing. record {
                        job_id = job_id;
                        job_name = and_then row.job_name sanitize_display_name;
                        conclusion = conclusion;
                        timing = timing;
                        identity = identity;
                      })
                      (ok_of (derived_timing start end source))

  -- The limit is converted to an `i64`.
  unfoldable pub list :
      RepositoryId
      → WorkflowRunId
      → WorkflowRunAttempt
      → ℕ
      → Sql Database WorkflowJobLinkStoreError (List PipelineJobSummary)
  unfolding on_pool select_links map_sqlx_error into_summary
  list repository_id run_id run_attempt limit = do
    lift (if ltb limit (2 ^ 63) then ok tt else err internal)
    rows ←
        on_pool map_sqlx_error (select_links repository_id.id run_id.id run_attempt.attempt limit)
    lift (ok (filter_map into_summary rows))

abbrev pub link_columns : Columns WorkflowJobLinkRow
link_columns = record { id = λ r. r.rowid; stamp = λ r. some r.updated_at }

unfoldable pub prune_links : Text → Database → Result SqlxError (ℕ × Database)
unfolding prune
prune_links cutoff d =
    let (deleted, rows) = prune link_columns prune_batch_size cutoff d.workflow_job_links in
    ok (deleted, record d { workflow_job_links = rows })

unfoldable pub prune_batch : TimeFormat → ℕ → Sql Database WorkflowJobLinkStoreError ℕ
unfolding on_pool prune_links map_sqlx_error
prune_batch f cutoff = do
  cutoff ← lift (ok_or (f.format_millis cutoff) internal)
  on_pool map_sqlx_error (prune_links cutoff)
