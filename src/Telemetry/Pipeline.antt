-- ===== src/Telemetry/Pipeline.antt =====
-- src/telemetry/pipeline.rs: the summary trace of a completed run.
pub mod Interval
pub mod Severity
pub mod Aggregate
mod Tests
use github_webhook_exporter.Prelude.{
  ℕ, ◌==◌, ◌&&◌, ◌||◌, Bool, true, false, not, List, [], ◌∷◌, all, length, map, Option, none, some,
  leb, ltb, leb_ℤ, Result, ok, err, if◌then◌else◌,
}
use github_webhook_exporter.Prelude.Options.{◌>>=◌, map_option}
use github_webhook_exporter.Domain.Delivery.{DeliveryId}
use github_webhook_exporter.Security.Names.{CanonicalRepositoryName}
use github_webhook_exporter.Telemetry.CommitSha.{CommitSha}
use github_webhook_exporter.Telemetry.Workflow.Names.{DisplayName}
use github_webhook_exporter.Telemetry.Workflow.Vocabulary.{
  WorkflowJobId, WorkflowConclusion, success, failure, cancelled, skipped, timed_out, neutral,
  other, WorkflowPullRequests,
}
use github_webhook_exporter.Telemetry.Workflow.Timing.{
  SystemTime, TimingSource, reported, fallback, HistoricalTiming, derived_timing, fallback_timing,
}
use github_webhook_exporter.Telemetry.Workflow.Trace.{WorkflowRunContext}

abbrev pub max_pipeline_job_spans : ℕ
max_pipeline_job_spans = 256

-- OpenTelemetry's identifiers are their values; zero is the invalid one.
pub record WorkflowJobTraceIdentity : Type 0 where
  pub trace_id : ℕ
  pub span_id : ℕ

unfoldable pub is_valid : WorkflowJobTraceIdentity → Bool
is_valid identity = not (identity.trace_id == 0) && not (identity.span_id == 0)

pub record PipelineJobSummary : Type 0 where
  pub job_id : WorkflowJobId
  pub job_name : Option DisplayName
  pub conclusion : WorkflowConclusion
  pub timing : HistoricalTiming
  pub identity : WorkflowJobTraceIdentity

pub record PipelineRunTraceParts : Type 0 where
  pub repository_name : CanonicalRepositoryName
  pub delivery_id : DeliveryId
  pub workflow_name : Option DisplayName
  pub head_sha : Option CommitSha
  pub pull_requests : WorkflowPullRequests
  pub run_context : WorkflowRunContext
  pub jobs : List PipelineJobSummary

pub record PipelineRunTrace : Type 0 where
  pub parts : PipelineRunTraceParts
  pub conclusion : WorkflowConclusion
  pub timing : HistoricalTiming

-- `Iterator::min` and `Iterator::max` of instants.
unfoldable pub earliest : List SystemTime → Option SystemTime
earliest [] = none
earliest (t ∷ ts) = elim (earliest ts) [
  | none ↦ some t
  | some u ↦ some (if leb_ℤ t u then t else u)
]

unfoldable pub latest : List SystemTime → Option SystemTime
latest [] = none
latest (t ∷ ts) = elim (latest ts) [ none ↦ some t | some u ↦ some (if leb_ℤ t u then u else t) ]

abbrev is_reported : TimingSource → Bool
is_reported reported = true
is_reported fallback = false

unfoldable pub aggregate_source : List PipelineJobSummary → TimingSource
aggregate_source jobs =
    if all (λ (job : PipelineJobSummary). is_reported job.timing.source) jobs
    then reported
    else fallback

abbrev pub or_fallback {ℓ} :
    {E : Type ℓ} → SystemTime → Result E HistoricalTiming → HistoricalTiming
or_fallback end (ok timing) = timing
or_fallback end (err e) = fallback_timing end

unfoldable pub aggregate_timing : List PipelineJobSummary → Option HistoricalTiming
unfolding earliest latest aggregate_source derived_timing fallback_timing
aggregate_timing jobs = do
  start ← earliest (map (λ (job : PipelineJobSummary). job.timing.start) jobs)
  end ← latest (map (λ (job : PipelineJobSummary). job.timing.end) jobs)
  some (or_fallback end (derived_timing start end (aggregate_source jobs)))

unfoldable pub run_severity : WorkflowConclusion → ℕ
run_severity skipped = 0
run_severity success = 1
run_severity neutral = 2
run_severity other = 3
run_severity cancelled = 4
run_severity timed_out = 5
run_severity failure = 6

-- `Iterator::max_by_key`, which gives the last of the greatest.
unfoldable pub most_severe : List WorkflowConclusion → Option WorkflowConclusion
unfolding run_severity
most_severe [] = none
most_severe (c ∷ cs) = elim (most_severe cs) [
  | none ↦ some c
  | some d ↦ some (if leb (run_severity c) (run_severity d) then d else c)
]

abbrev pub or_other : Option WorkflowConclusion → WorkflowConclusion
or_other none = other
or_other (some c) = c

unfoldable pub aggregate_conclusion : List PipelineJobSummary → WorkflowConclusion
unfolding most_severe
aggregate_conclusion jobs =
    or_other (most_severe (map (λ (job : PipelineJobSummary). job.conclusion) jobs))

abbrev is_empty : List PipelineJobSummary → Bool
is_empty [] = true
is_empty (job ∷ jobs) = false

unfoldable pub new_pipeline_run : PipelineRunTraceParts → Option PipelineRunTrace
unfolding aggregate_timing aggregate_conclusion
new_pipeline_run parts =
    if is_empty parts.jobs || ltb max_pipeline_job_spans (length parts.jobs)
    then none
    else aggregate_timing parts.jobs >>= λ timing.
        some
          (record { parts = parts; conclusion = aggregate_conclusion parts.jobs; timing = timing })
