-- ===== src/Api/WorkflowJob.antt =====
-- src/api/workflow_job.rs: the bounded trace of a completed workflow job. Reading the JSON text is
-- serde's; the functions begin with the projection that it yields, `none` where it fails.
pub mod Bounded
mod Tests
use github_webhook_exporter.Prelude.{
  ℕ, ◌+◌, ◌-◌, ◌*◌, ◌^◌, ◌==◌, ◌&&◌, Bool, List, [], ◌∷◌, filter_map, take, Text, Option, none,
  some, ℤ, pos, negsuc, sub_ℕ, Result, ok, err, ltb, leb, if◌then◌else◌,
}
use github_webhook_exporter.Prelude.Options.{◌>>=◌, map_option}
use github_webhook_exporter.Domain.Delivery.{DeliveryId}
use github_webhook_exporter.Domain.MergeQueue
use github_webhook_exporter.Security.Names.{CanonicalRepositoryName}
use github_webhook_exporter.Telemetry.CommitSha.{CommitSha, parse_commit_sha}
use github_webhook_exporter.Telemetry.Workflow.Names
use github_webhook_exporter.Telemetry.Workflow.Names.{DisplayName}
use github_webhook_exporter.Telemetry.Workflow.Required.{RequiredChecks, contains}
use github_webhook_exporter.Telemetry.Workflow.Vocabulary
use github_webhook_exporter.Telemetry.Workflow.Vocabulary.{
  new_run_id, new_run_attempt, new_job_id, WorkflowRunId, WorkflowRunAttempt, WorkflowJobId,
  WorkflowConclusion, new_pull_requests,
}
use github_webhook_exporter.Telemetry.Workflow.Timing.{
  SystemTime, HistoricalTiming, WorkflowTimingError, reported_timing, fallback_timing,
  reported_within_parent,
}
use github_webhook_exporter.Telemetry.Workflow.Trace.{
  WorkflowRunContext, WorkflowStepTrace, new_step, WorkflowJobTrace,
}
use github_webhook_exporter.Api.MergeGroup.{Value, as_str}

-- The visitor's loop over the elements; `none` is an element that serde refuses.
unfoldable pub count_elements : ℕ → List (Option (Unit {0})) → Option ℕ
count_elements count [] = some count
count_elements count (none ∷ sequence) = none
count_elements count (some x ∷ sequence) =
    let rest = count_elements (count + 1) sequence in
    if ltb (count + 1) (2 ^ 64) then rest else none

-- `WorkflowJobAdmissionProjection`, with the elements that the step count is read from.
pub record WorkflowJobAdmissionProjection : Type 0 where
  pub id : ℤ
  pub run_id : ℤ
  pub run_attempt : ℤ
  pub steps : List (Option (Unit {0}))

pub record WorkflowJobAdmission : Type 0 where
  pub run_id : WorkflowRunId
  pub run_attempt : WorkflowRunAttempt
  pub job_id : WorkflowJobId
  pub step_count : ℕ

unfoldable pub inspect_completed_job :
    Option WorkflowJobAdmissionProjection → Option WorkflowJobAdmission
unfolding count_elements new_run_id new_run_attempt new_job_id
inspect_completed_job envelope = do
  workflow_job ← envelope
  steps ← count_elements 0 workflow_job.steps
  run_id ← new_run_id workflow_job.run_id
  run_attempt ← new_run_attempt workflow_job.run_attempt
  job_id ← new_job_id workflow_job.id
  some (record { run_id = run_id; run_attempt = run_attempt; job_id = job_id; step_count = steps })

pub record PullRequestProjection : Type 0 where
  pub number : ℤ

pub record WorkflowStepProjection : Type 0 where
  pub number : ℤ
  pub name : Option Value
  pub conclusion : Option Value
  pub started_at : Option Value
  pub completed_at : Option Value

pub record WorkflowJobProjection : Type 0 where
  pub id : ℤ
  pub run_id : ℤ
  pub run_attempt : ℤ
  pub workflow_name : Option Value
  pub name : Option Value
  pub conclusion : Option Value
  pub head_sha : Option Value
  pub started_at : Option Value
  pub completed_at : Option Value
  pub pull_requests : List PullRequestProjection
  pub steps : List WorkflowStepProjection

-- What `unix_timestamp` and `nanosecond` give of an `OffsetDateTime`: the seconds from the Unix
-- epoch, rounded down, and the nanoseconds after them.
pub record OffsetDateTime : Type 0 where
  pub unix_timestamp : ℤ
  pub nanosecond : ℕ

abbrev nanos_per_second : ℕ
nanos_per_second = 1000000000

-- `checked_add` and `checked_sub` of a duration at the Unix epoch. A `SystemTime` holds its
-- seconds in an `i64`.
abbrev after_epoch : ℕ → ℕ → Option SystemTime
after_epoch seconds nanos =
    if ltb seconds (2 ^ 63) then some (pos (seconds * nanos_per_second + nanos)) else none

abbrev before_epoch : ℕ → ℕ → Option SystemTime
before_epoch seconds nanos =
    if ltb (seconds * nanos_per_second + nanos) (2 ^ 63 * nanos_per_second + 1)
    then some (sub_ℕ 0 (seconds * nanos_per_second + nanos))
    else none

unfoldable pub system_time_of : ℤ → ℕ → Option SystemTime
system_time_of (pos seconds) nanoseconds = after_epoch seconds nanoseconds
system_time_of (negsuc n) nanoseconds =
    if nanoseconds == 0
    then before_epoch (n + 1) 0
    else before_epoch n (nanos_per_second - nanoseconds)

unfoldable pub offset_datetime_to_system_time : OffsetDateTime → Option SystemTime
unfolding system_time_of
offset_datetime_to_system_time value = system_time_of value.unix_timestamp value.nanosecond

unfoldable pub select_job_timing :
    Option SystemTime → Option SystemTime → SystemTime → HistoricalTiming
unfolding reported_timing fallback_timing
select_job_timing (some start) (some end) received_at = elim (reported_timing start end) [
  | ok timing ↦ timing
  | err e ↦ fallback_timing end
]
select_job_timing none (some end) received_at = fallback_timing end
select_job_timing start none received_at = fallback_timing received_at

unfoldable pub select_step_timing :
    Option SystemTime → Option SystemTime → HistoricalTiming → HistoricalTiming
unfolding reported_within_parent fallback_timing
select_step_timing (some start) (some end) parent = elim (reported_within_parent start end parent) [
  | ok timing ↦ timing
  | err e ↦ fallback_timing parent.end
]
select_step_timing none (some end) parent = fallback_timing parent.end
select_step_timing start none parent = fallback_timing parent.end

unfoldable pub sanitize_display_name : Option Value → Option DisplayName
unfolding Names.sanitize_display_name
sanitize_display_name value = as_str value >>= Names.sanitize_display_name

unfoldable pub normalize_conclusion : Option Value → WorkflowConclusion
unfolding Vocabulary.normalize_conclusion
normalize_conclusion value = Vocabulary.normalize_conclusion (as_str value)

abbrev pub same_run : WorkflowRunId → WorkflowRunAttempt → WorkflowRunContext → Bool
same_run run_id run_attempt context =
    context.run_id.id == run_id.id && context.run_attempt.attempt == run_attempt.attempt

-- `Option::filter`.
abbrev pub filter_option : {A : Type 0} → (A → Bool) → Option A → Option A
filter_option p none = none
filter_option p (some a) = if p a then some a else none

-- `required_checks.zip(job_name).map(…)`.
abbrev required_of : Option RequiredChecks → Option DisplayName → Option Bool
required_of none job_name = none
required_of (some checks) none = none
required_of (some checks) (some name) = some (contains checks name.text)

abbrev pub trace_of :
    WorkflowJobProjection
    → CanonicalRepositoryName
    → DeliveryId
    → Option WorkflowRunContext
    → Option RequiredChecks
    → HistoricalTiming
    → WorkflowRunId
    → WorkflowRunAttempt
    → WorkflowJobId
    → List WorkflowStepTrace
    → WorkflowJobTrace
trace_of job repository_name delivery_id workflow_run_context required_checks timing run_id
      run_attempt job_id steps =
    record {
      repository_name = repository_name;
      delivery_id = delivery_id;
      workflow_name = sanitize_display_name job.workflow_name;
      run_id = run_id;
      run_attempt = run_attempt;
      job_id = job_id;
      job_name = sanitize_display_name job.name;
      conclusion = normalize_conclusion job.conclusion;
      head_sha = as_str job.head_sha >>= parse_commit_sha;
      pull_requests = new_pull_requests (
          take 20 (
            filter_map (λ (p : PullRequestProjection). MergeQueue.new p.number) job.pull_requests));
      workflow_run_context = filter_option (same_run run_id run_attempt) workflow_run_context;
      required = required_of required_checks (sanitize_display_name job.name);
      timing = timing;
      steps = steps;
    }

-- `OffsetDateTime::parse` with the RFC 3339 format is the `time` crate's.
module _ (parse_rfc3339 : Text → Option OffsetDateTime) where
  unfoldable pub parse_timestamp : Option Value → Option SystemTime
  unfolding offset_datetime_to_system_time
  parse_timestamp value = as_str value >>= parse_rfc3339 >>= offset_datetime_to_system_time

  unfoldable pub project_step : HistoricalTiming → WorkflowStepProjection → Option WorkflowStepTrace
  unfolding parse_timestamp select_step_timing new_step sanitize_display_name normalize_conclusion
  project_step timing step =
      new_step step.number (sanitize_display_name step.name) (normalize_conclusion step.conclusion)
        (select_step_timing (parse_timestamp step.started_at) (parse_timestamp step.completed_at)
          timing)

  -- The loop over the steps: one that is refused ends the projection.
  unfoldable pub project_steps :
      HistoricalTiming → List WorkflowStepProjection → Option (List WorkflowStepTrace)
  unfolding project_step
  project_steps timing [] = some []
  project_steps timing (step ∷ steps) = do
    projected ← project_step timing step
    rest ← project_steps timing steps
    some (projected ∷ rest)

  abbrev pub job_timing_of : WorkflowJobProjection → SystemTime → HistoricalTiming
  job_timing_of job received_at =
      select_job_timing (parse_timestamp job.started_at) (parse_timestamp job.completed_at)
        received_at

  unfoldable pub project_completed_job :
      Option WorkflowJobProjection
      → CanonicalRepositoryName
      → DeliveryId
      → OffsetDateTime
      → Option WorkflowRunContext
      → Option RequiredChecks
      → Option WorkflowJobTrace
  unfolding project_steps parse_timestamp select_job_timing sanitize_display_name
      normalize_conclusion new_run_id new_run_attempt new_job_id new_pull_requests contains
      parse_commit_sha offset_datetime_to_system_time
  project_completed_job envelope repository_name delivery_id received workflow_run_context
        required_checks =
      do
        received_at ← offset_datetime_to_system_time received
        workflow_job ← envelope
        run_id ← new_run_id workflow_job.run_id
        run_attempt ← new_run_attempt workflow_job.run_attempt
        job_id ← new_job_id workflow_job.id
        steps ← project_steps (job_timing_of workflow_job received_at) workflow_job.steps
        some (
            trace_of workflow_job repository_name delivery_id workflow_run_context required_checks
              (job_timing_of workflow_job received_at) run_id run_attempt job_id steps)
