-- ===== src/Telemetry/Pipeline/Tests.antt =====
-- The theorem on the summary of a run, at one with two jobs.
use github_webhook_exporter.Prelude.{ℕ, pos, none, some, [], ◌∷◌, lit, arith}
use github_webhook_exporter.Fixtures.{octo, run_context, job_timing, identity, display}
use github_webhook_exporter.Telemetry.Workflow.Vocabulary.{WorkflowConclusion, success, failure}
use github_webhook_exporter.Telemetry.Workflow.Timing.{HistoricalTiming, fallback}
use github_webhook_exporter.Telemetry.Pipeline.{
  PipelineJobSummary, PipelineRunTraceParts, new_pipeline_run,
}
use github_webhook_exporter.Telemetry.Pipeline.Interval.{AllOrdered}
use github_webhook_exporter.Telemetry.Pipeline.Aggregate.{Summarizes, new_pipeline_run-Summarizes}

abbrev job : ℕ → WorkflowConclusion → HistoricalTiming → PipelineJobSummary
job n conclusion timing = record {
  job_id = record { id = n };
  job_name = none;
  conclusion = conclusion;
  timing = timing;
  identity = identity;
}

abbrev late : HistoricalTiming
late = record { start = pos 950; end = pos 950; source = fallback }

abbrev parts : PipelineRunTraceParts
parts = record {
  repository_name = octo;
  delivery_id = record { uuid = 102 };
  workflow_name = some (display (lit "ci"));
  head_sha = none;
  pull_requests = record { numbers = [] };
  run_context = run_context;
  jobs = job 5 failure job_timing ∷ job 6 success late ∷ [];
}

parts-AllOrdered : AllOrdered parts.jobs
parts-AllOrdered = (omega arith, (omega arith, tt))

new_pipeline_run-Summarizes_example : Summarizes parts.jobs (new_pipeline_run parts)
new_pipeline_run-Summarizes_example = new_pipeline_run-Summarizes parts parts-AllOrdered
