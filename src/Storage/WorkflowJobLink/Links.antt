-- ===== src/Storage/WorkflowJobLink/Links.antt =====
-- Writing and reading the links of src/storage/workflow_job_link_store.rs.
use github_webhook_exporter.Prelude.{
  ℕ, ◌≤◌, ◌<◌, ◌^◌, ◌≡◌, refl, Bool, true, [], ◌∷◌, find, any, length, lit, Text, text_eq,
  lookup_text, match_text, Option, none, some, pos, ok, arith, lt→ltb,
}
use github_webhook_exporter.Prelude.Options.{map_option, and_then}
use github_webhook_exporter.Domain.Repository.{RepositoryId}
use github_webhook_exporter.Telemetry.Workflow.Names.{DisplayName, sanitize_display_name}
use github_webhook_exporter.Telemetry.Workflow.Sanitized.{IsDisplayText, sanitize_fixed}
use github_webhook_exporter.Telemetry.Workflow.Vocabulary.{
  new_job_id, positive, WorkflowConclusion, success, failure, cancelled, skipped, timed_out,
  neutral, other, normalize_conclusion, conclusion_as_str,
}
use github_webhook_exporter.Telemetry.Workflow.Timing.{
  TimingSource, reported, fallback, timing_source_as_str, HistoricalTiming, derived_timing,
}
use github_webhook_exporter.Telemetry.Workflow.Trace.{WorkflowJobTrace}
use github_webhook_exporter.Telemetry.Pipeline.{
  WorkflowJobTraceIdentity, is_valid, PipelineJobSummary,
}
use github_webhook_exporter.Storage.Sql.{Session, on_pool}
use github_webhook_exporter.Storage.Tables.{
  WorkflowJobLinkRow, Database, check_link, length_within_or_null,
}
use github_webhook_exporter.Storage.Upsert
use github_webhook_exporter.Storage.WorkflowJobLink.{
  Hex, system_time_to_nanos, nanos_to_system_time, is_link_of, is_job_row, link_row, upsert_link,
  record_link, normalize_stored_conclusion, stored_source, into_summary,
}
use github_webhook_exporter.Storage.RequiredCheck.Fresh.{Serves}

-- What the crate documents: identifiers, of 128 and 64 bits, are shown in a fixed width, and
-- read back.
pub record HexLaws (hex : Hex) : Type 0 where
  pub trace_read : (n : ℕ) → n < 2 ^ 128 → hex.trace_from_hex (hex.trace_to_hex n) ≡ some n
  pub span_read : (n : ℕ) → n < 2 ^ 64 → hex.span_from_hex (hex.span_to_hex n) ≡ some n
  pub trace_width : (n : ℕ) → n < 2 ^ 128 → length (hex.trace_to_hex n) ≡ 32
  pub span_width : (n : ℕ) → n < 2 ^ 64 → length (hex.span_to_hex n) ≡ 16

-- A job that can be linked: its identity is valid and its interval lies within the instants that
-- an `i64` holds in nanoseconds after the epoch.
pub record IsLinkable (job : WorkflowJobTrace) (identity : WorkflowJobTraceIdentity)
    (started completed : ℕ) : Type 0 where
  pub identified : is_valid identity ≡ true
  pub trace_word : identity.trace_id < 2 ^ 128
  pub span_word : identity.span_id < 2 ^ 64
  pub starts : job.timing.start ≡ pos started
  pub ends : job.timing.end ≡ pos completed
  pub ordered : started ≤ completed
  pub representable : completed < 2 ^ 63
  pub run : 0 < job.run_id.id
  pub attempt : 0 < job.run_attempt.attempt
  pub number : 0 < job.job_id.id
  pub named : (n : DisplayName) → job.job_name ≡ some n → IsDisplayText n.text

-- The summary of a job trace.
abbrev pub summary_of : WorkflowJobTrace → WorkflowJobTraceIdentity → PipelineJobSummary
summary_of job identity = record {
  job_id = job.job_id;
  job_name = job.job_name;
  conclusion = job.conclusion;
  timing = job.timing;
  identity = identity;
}

-- A stored conclusion is read back, and no other text is read.
pub normalize_stored_conclusion-as_str :
    (c : WorkflowConclusion) → normalize_stored_conclusion (conclusion_as_str c) ≡ some c
unfolding normalize_stored_conclusion normalize_conclusion conclusion_as_str match_text lookup_text
    text_eq
normalize_stored_conclusion-as_str success = refl
normalize_stored_conclusion-as_str failure = refl
normalize_stored_conclusion-as_str cancelled = refl
normalize_stored_conclusion-as_str skipped = refl
normalize_stored_conclusion-as_str timed_out = refl
normalize_stored_conclusion-as_str neutral = refl
normalize_stored_conclusion-as_str other = refl

stored-timing_source_as_str : (s : TimingSource) → stored_source (timing_source_as_str s) ≡ some s
unfolding stored_source timing_source_as_str lookup_text
stored-timing_source_as_str reported = refl
stored-timing_source_as_str fallback = refl

stored_job_id : (n : ℕ) → 0 < n → new_job_id (pos n) ≡ some (record { id = n })
unfolding new_job_id positive
stored_job_id n h = rw (lt→ltb 0 n h) refl

stored_name :
    (o : Option DisplayName)
    → ((n : DisplayName) → o ≡ some n → IsDisplayText n.text)
    → and_then (map_option (λ (n : DisplayName). n.text) o) sanitize_display_name ≡ o
stored_name none h = refl
stored_name (some n) h = sanitize_fixed n (h n refl)

stored_timing :
    (t : HistoricalTiming) (started completed : ℕ)
    → t.start ≡ pos started
    → t.end ≡ pos completed
    → started ≤ completed
    → derived_timing (pos started) (pos completed) t.source ≡ ok t
unfolding derived_timing
stored_timing t started completed s e h = ground arith

abbrev conclusion_allowed : Text → Bool
conclusion_allowed s = any (text_eq s) (
    lit "success"
    ∷ lit "failure"
    ∷ lit "cancelled"
    ∷ lit "skipped"
    ∷ lit "timed_out"
    ∷ lit "neutral"
    ∷ lit "other"
    ∷ [])

conclusion-allowed : (c : WorkflowConclusion) → conclusion_allowed (conclusion_as_str c) ≡ true
unfolding conclusion_as_str text_eq
conclusion-allowed success = refl
conclusion-allowed c = refl

source-allowed :
    (s : TimingSource)
    → any (text_eq (timing_source_as_str s)) (lit "reported" ∷ lit "fallback" ∷ []) ≡ true
unfolding timing_source_as_str text_eq
source-allowed reported = refl
source-allowed fallback = refl

module _ (hex : Hex) (laws : HexLaws hex) (job : WorkflowJobTrace)
    (identity : WorkflowJobTraceIdentity) (started completed : ℕ)
    (linkable : IsLinkable job identity started completed) where
  into_summary-link_row :
      (repository : ℕ) (now : Text) (k : ℕ)
      → into_summary hex (link_row hex repository job identity (pos started) (pos completed) now k)
        ≡ some (summary_of job identity)
  unfolding into_summary nanos_to_system_time
  into_summary-link_row repository now k =
      rw
        (
          stored_job_id job.job_id.id linkable.number,
          normalize_stored_conclusion-as_str job.conclusion,
          laws.trace_read identity.trace_id linkable.trace_word,
          laws.span_read identity.span_id linkable.span_word,
          linkable.identified,
          stored-timing_source_as_str job.timing.source,
          stored_timing job.timing started completed linkable.starts linkable.ends linkable.ordered,
          stored_name job.job_name linkable.named,
        )
        refl

  named_length :
      (o : Option DisplayName)
      → ((n : DisplayName) → o ≡ some n → IsDisplayText n.text)
      → length_within_or_null 128 (map_option (λ (n : DisplayName). n.text) o) ≡ true
  named_length none h = refl
  named_length (some n) h = let text = h n refl in ground (arith, text.nonempty, text.bounded)

  checked_link :
      (repository : ℕ) (now : Text)
      → check_link (link_row hex repository job identity (pos started) (pos completed) now 0) ≡ true
  unfolding check_link
  checked_link repository now = ground (
    arith,
    linkable.run,
    linkable.attempt,
    linkable.number,
    linkable.ordered,
    named_length job.job_name linkable.named,
    conclusion-allowed job.conclusion,
    source-allowed job.timing.source,
    laws.trace_width identity.trace_id linkable.trace_word,
    laws.span_width identity.span_id linkable.span_word,
  )

  nanos_kept : (n : ℕ) → n < 2 ^ 63 → system_time_to_nanos (pos n) ≡ some (pos n)
  unfolding system_time_to_nanos
  nanos_kept n h = rw (lt→ltb n (2 ^ 63) h) refl

  same_job :
      (repository : ℕ) (now : Text) (k : ℕ)
      → is_job_row repository job.run_id.id job.run_attempt.attempt job.job_id.id
          (link_row hex repository job identity (pos started) (pos completed) now k)
        ≡ true
  unfolding is_job_row is_link_of
  same_job repository now k = ground arith

  abbrev row_of : ℕ → Text → ℕ → WorkflowJobLinkRow
  row_of repository now = link_row hex repository job identity (pos started) (pos completed) now

  abbrev key_of : ℕ → WorkflowJobLinkRow → Bool
  key_of repository = is_job_row repository job.run_id.id job.run_attempt.attempt job.job_id.id

  -- The statement succeeds, and its effect.
  record_runs :
      (repository_id : RepositoryId) (now : Text) (s : Session Database)
      → Serves repository_id s
      → ((record_link hex now repository_id job identity s).0 ≡ ok tt)
        × (Upsert.upsert
              (λ (r : WorkflowJobLinkRow). r.rowid)
              true
              true
              (key_of repository_id.id)
              (row_of repository_id.id now)
              s.committed.workflow_job_links
            ≡ ok (record_link hex now repository_id job identity s).1.committed.workflow_job_links)
  unfolding record_link on_pool upsert_link
  record_runs repository_id now s serves =
      let (rows, e) =
        Upsert.upsert_served (λ (r : WorkflowJobLinkRow). r.rowid) (key_of repository_id.id)
          (row_of repository_id.id now) s.committed.workflow_job_links in
      let small : started < 2 ^ 63 = omega (arith, linkable.ordered, linkable.representable) in
      rw
        (
          linkable.identified,
          linkable.starts,
          linkable.ends,
          nanos_kept started small,
          nanos_kept completed linkable.representable,
          serves.0,
          checked_link repository_id.id now,
          serves.1,
          e,
        )
        (refl, refl)

  -- Where the repository is stored and SQLite serves the call, and identifiers are shown in
  -- hexadecimal digits that are read back, the identity of a job that can be linked (its identity is
  -- valid and its interval in order, within the instants of an `i64`) is stored, and the job's row
  -- is read as the job's summary.
  pub record_link_lem :
      (repository_id : RepositoryId) (now : Text) (s : Session Database)
      → Serves repository_id s
      → ((record_link hex now repository_id job identity s).0 ≡ ok tt)
        × (and_then
              (find
                (is_job_row repository_id.id job.run_id.id job.run_attempt.attempt job.job_id.id)
                (record_link hex now repository_id job identity s).1.committed.workflow_job_links)
              (into_summary hex)
            ≡ some (summary_of job identity))
  record_link_lem repository_id now s serves =
      let (done, rows) = record_runs repository_id now s serves in
      let (k, found) =
        Upsert.find-upsert (λ (r : WorkflowJobLinkRow). r.rowid) (key_of repository_id.id)
          (row_of repository_id.id now) (key_of repository_id.id) (λ r out. out) true true
          s.committed.workflow_job_links _ (λ k. same_job repository_id.id now k) rows in
      (done, rw found (into_summary-link_row repository_id.id now k))
