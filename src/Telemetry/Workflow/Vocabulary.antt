-- ===== src/Telemetry/Workflow/Vocabulary.antt =====
-- `WorkflowEvent`, `WorkflowConclusion` and the identifiers of src/telemetry/workflow.rs.
use github_webhook_exporter.Prelude.{
  ℕ, Bool, true, false, List, [], ◌∷◌, take, Text, lit, match_text, Option, none, some, ℤ, pos,
  negsuc, ltb, if◌then◌else◌,
}
use github_webhook_exporter.Prelude.Options.{map_option}
use github_webhook_exporter.Domain.MergeQueue.{PullRequestNumber}

-- `WorkflowRunId`, `WorkflowRunAttempt` and `WorkflowJobId`, which one macro makes: the value of a
-- positive `i64`.
pub record WorkflowRunId : Type 0 where
  pub id : ℕ

pub record WorkflowRunAttempt : Type 0 where
  pub attempt : ℕ

pub record WorkflowJobId : Type 0 where
  pub id : ℕ

-- `value > 0`.
unfoldable pub positive : ℤ → Option ℕ
positive (pos value) = if ltb 0 value then some value else none
positive (negsuc value) = none

unfoldable pub new_run_id : ℤ → Option WorkflowRunId
unfolding positive
new_run_id value = map_option (λ n. record { id = n }) (positive value)

unfoldable pub new_run_attempt : ℤ → Option WorkflowRunAttempt
unfolding positive
new_run_attempt value = map_option (λ n. record { attempt = n }) (positive value)

unfoldable pub new_job_id : ℤ → Option WorkflowJobId
unfolding positive
new_job_id value = map_option (λ n. record { id = n }) (positive value)

pub data WorkflowEvent : Type 0 where
  pull_request merge_group push other_event : WorkflowEvent

unfoldable pub normalize_event : Option Text → WorkflowEvent
unfolding match_text
normalize_event none = other_event
normalize_event (some value) =
    match_text
      ((lit "pull_request", pull_request)
        ∷ (lit "merge_group", merge_group)
        ∷ (lit "push", push)
        ∷ [])
      other_event value

unfoldable pub event_as_str : WorkflowEvent → Text
event_as_str pull_request = lit "pull_request"
event_as_str merge_group = lit "merge_group"
event_as_str push = lit "push"
event_as_str other_event = lit "other"

pub data WorkflowConclusion : Type 0 where
  success failure cancelled skipped timed_out neutral other : WorkflowConclusion

unfoldable pub normalize_conclusion : Option Text → WorkflowConclusion
unfolding match_text
normalize_conclusion none = other
normalize_conclusion (some value) =
    match_text
      ((lit "success", success)
        ∷ (lit "failure", failure)
        ∷ (lit "cancelled", cancelled)
        ∷ (lit "skipped", skipped)
        ∷ (lit "timed_out", timed_out)
        ∷ (lit "neutral", neutral)
        ∷ [])
      other value

unfoldable pub conclusion_as_str : WorkflowConclusion → Text
conclusion_as_str success = lit "success"
conclusion_as_str failure = lit "failure"
conclusion_as_str cancelled = lit "cancelled"
conclusion_as_str skipped = lit "skipped"
conclusion_as_str timed_out = lit "timed_out"
conclusion_as_str neutral = lit "neutral"
conclusion_as_str other = lit "other"

unfoldable pub semantic_result : WorkflowConclusion → Text
semantic_result success = lit "success"
semantic_result failure = lit "failure"
semantic_result cancelled = lit "cancellation"
semantic_result skipped = lit "skip"
semantic_result timed_out = lit "timeout"
semantic_result neutral = lit "neutral"
semantic_result other = lit "other"

unfoldable pub error_type : WorkflowConclusion → Option Text
error_type failure = some (lit "GitHubActionsTaskFailure")
error_type timed_out = some (lit "GitHubActionsTaskTimeout")
error_type _ = none

unfoldable pub emits_synthetic_error : WorkflowConclusion → Bool
emits_synthetic_error failure = true
emits_synthetic_error timed_out = true
emits_synthetic_error _ = false

-- OpenTelemetry's span status.
pub data Status : Type 0 where
  unset status_ok : Status
  error : (description : Text) → Status

unfoldable pub status : WorkflowConclusion → Status
status success = status_ok
status failure = error (lit "workflow_failed")
status timed_out = error (lit "workflow_failed")
status _ = unset

pub record WorkflowPullRequests : Type 0 where
  pub numbers : List PullRequestNumber

unfoldable pub new_pull_requests : List PullRequestNumber → WorkflowPullRequests
new_pull_requests values = record { numbers = take 20 values }
