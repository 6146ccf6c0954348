-- ===== src/Telemetry/Workflow/Trace.antt =====
-- `WorkflowRunContext`, `WorkflowJobTrace` and `WorkflowStepTrace` of
-- src/telemetry/workflow.rs.
use github_webhook_exporter.Prelude.{ℕ, Bool, true, false, not, ◌&&◌, List, Option, none, some, ℤ}
use github_webhook_exporter.Prelude.Options.{map_option}
use github_webhook_exporter.Domain.Delivery.{DeliveryId}
use github_webhook_exporter.Security.Names.{CanonicalRepositoryName}
use github_webhook_exporter.Telemetry.CommitSha.{CommitSha}
use github_webhook_exporter.Telemetry.Workflow.Names.{DisplayName, WorkflowBranch}
use github_webhook_exporter.Telemetry.Workflow.Vocabulary.{
  WorkflowRunId, WorkflowRunAttempt, WorkflowJobId, WorkflowEvent, WorkflowConclusion,
  WorkflowPullRequests, Status, unset, status, emits_synthetic_error, positive,
}
use github_webhook_exporter.Telemetry.Workflow.Timing.{HistoricalTiming}

pub record WorkflowRunContext : Type 0 where
  pub run_id : WorkflowRunId
  pub run_attempt : WorkflowRunAttempt
  pub event : WorkflowEvent
  pub source_branch : Option WorkflowBranch
  pub target_branch : Option WorkflowBranch

pub record WorkflowStepTrace : Type 0 where
  pub number : ℕ
  pub name : Option DisplayName
  pub conclusion : WorkflowConclusion
  pub timing : HistoricalTiming

unfoldable pub new_step :
    ℤ → Option DisplayName → WorkflowConclusion → HistoricalTiming → Option WorkflowStepTrace
unfolding positive
new_step number name conclusion timing =
    map_option (λ n. record { number = n; name = name; conclusion = conclusion; timing = timing })
      (positive number)

-- `WorkflowJobTrace`, and the `WorkflowJobTraceParts` that its constructor copies.
pub record WorkflowJobTrace : Type 0 where
  pub repository_name : CanonicalRepositoryName
  pub delivery_id : DeliveryId
  pub workflow_name : Option DisplayName
  pub run_id : WorkflowRunId
  pub run_attempt : WorkflowRunAttempt
  pub job_id : WorkflowJobId
  pub job_name : Option DisplayName
  pub conclusion : WorkflowConclusion
  pub head_sha : Option CommitSha
  pub pull_requests : WorkflowPullRequests
  pub workflow_run_context : Option WorkflowRunContext
  pub required : Option Bool
  pub timing : HistoricalTiming
  pub steps : List WorkflowStepTrace

-- `required == Some(false)`.
unfoldable pub not_required : Option Bool → Bool
not_required none = false
not_required (some required) = not required

unfoldable pub suppresses_failure : WorkflowJobTrace → Bool
unfolding not_required
suppresses_failure job = not_required job.required

unfoldable pub root_status : WorkflowJobTrace → Status
unfolding suppresses_failure status
root_status job = elim (suppresses_failure job) [ true ↦ unset | false ↦ status job.conclusion ]

unfoldable pub emits_root_synthetic_error : WorkflowJobTrace → Bool
unfolding suppresses_failure emits_synthetic_error
emits_root_synthetic_error job =
    not (suppresses_failure job) && emits_synthetic_error job.conclusion
