-- ===== src/Telemetry/WorkflowError/Tests.antt =====
-- The theorems on synthetic errors, at a failed job.
use github_webhook_exporter.Prelude.{◌≡◌, refl, true, some}
use github_webhook_exporter.Fixtures.{failed_job}
use github_webhook_exporter.Telemetry.Workflow.Vocabulary.{error_type, emits_synthetic_error}
use github_webhook_exporter.Telemetry.WorkflowError.{
  SyntheticWorkflowError, new_error, job_origin, job_error_parts,
}
use github_webhook_exporter.Telemetry.WorkflowError.Grouping.{new_error_reachable}

job_failure_emits : emits_synthetic_error (job_error_parts failed_job 11 12).conclusion ≡ true
unfolding job_error_parts emits_synthetic_error
job_failure_emits = refl

new_error_reachable_example :
    (e : SyntheticWorkflowError) × (new_error
        (job_origin failed_job)
        (job_error_parts failed_job 11 12)
      ≡ some e)
    × (error_type (job_error_parts failed_job 11 12).conclusion ≡ some e.exception_type)
new_error_reachable_example =
    new_error_reachable (job_origin failed_job) (job_error_parts failed_job 11 12) job_failure_emits
