-- ===== src/Api/WorkflowJob/Bounded.antt =====
-- What the projection of src/api/workflow_job.rs gives: intervals, counts and agreement.
use github_webhook_exporter.Prelude.{
  ℕ, ◌+◌, ◌*◌, ◌^◌, ◌≤◌, ◌<◌, ◌≡◌, refl, subst, sym, List, [], ◌∷◌, All, length, length-take, map,
  Text, Option, none, some, ℤ, pos, negsuc, sub_ℕ, ◌≤ℤ◌, arith,
}
use github_webhook_exporter.Prelude.Options.{some_inj, bound_some}
use github_webhook_exporter.Domain.MergeQueue.{PullRequestNumber}
use github_webhook_exporter.Domain.Delivery.{DeliveryId}
use github_webhook_exporter.Security.Names.{CanonicalRepositoryName}
use github_webhook_exporter.Telemetry.Workflow.Names.{DisplayName}
use github_webhook_exporter.Telemetry.Workflow.Sanitized.{IsDisplayText, sanitize-IsDisplayText}
use github_webhook_exporter.Telemetry.Workflow.Required.{RequiredChecks}
use github_webhook_exporter.Telemetry.Workflow.Vocabulary.{
  WorkflowRunId, WorkflowRunAttempt, WorkflowJobId, WorkflowConclusion, positive, new_run_id,
  new_run_attempt, new_job_id, new_pull_requests,
}
use github_webhook_exporter.Telemetry.Workflow.Timing.{
  SystemTime, HistoricalTiming, reported_timing, fallback_timing, reported_within_parent, Ordered,
  Within,
}
use github_webhook_exporter.Telemetry.Workflow.Trace.{
  WorkflowRunContext, WorkflowStepTrace, new_step, WorkflowJobTrace,
}
use github_webhook_exporter.Api.MergeGroup.{Value, as_str}
use github_webhook_exporter.Api.WorkflowJob.{
  count_elements, WorkflowJobAdmissionProjection, inspect_completed_job, WorkflowStepProjection,
  WorkflowJobProjection, OffsetDateTime, nanos_per_second, system_time_of,
  offset_datetime_to_system_time, select_job_timing, select_step_timing, sanitize_display_name,
  parse_timestamp, project_step, project_steps, same_run, filter_option, job_timing_of, trace_of,
  project_completed_job,
}

-- The instant that a date and time stands for, in nanoseconds from the Unix epoch.
abbrev pub instant : OffsetDateTime → ℤ
instant d = elim d.unix_timestamp [
  | pos seconds ↦ pos (seconds * nanos_per_second + d.nanosecond)
  | negsuc n ↦ sub_ℕ d.nanosecond ((n + 1) * nanos_per_second)
]

-- The years from -9999 to 9999, which the `time` crate is built for.
abbrev pub InRange : ℤ → Type 0
InRange seconds = (negsuc 377705116799 ≤ℤ seconds) × (seconds ≤ℤ pos 253402300799)

system_time_of-instant :
    (seconds : ℤ) (nanosecond : ℕ)
    → InRange seconds
    → nanosecond < nanos_per_second
    → system_time_of seconds nanosecond
      ≡ some (instant (record { unix_timestamp = seconds; nanosecond = nanosecond }))
unfolding system_time_of
system_time_of-instant (pos seconds) nanosecond h l = ground arith
system_time_of-instant (negsuc n) nanosecond h l = ground arith

-- A date and time of the years from -9999 to 9999 is converted to a `SystemTime`, and to the
-- same instant, before the Unix epoch too.
pub offset_datetime_to_system_time_lem :
    (d : OffsetDateTime)
    → InRange d.unix_timestamp
    → d.nanosecond < nanos_per_second
    → offset_datetime_to_system_time d ≡ some (instant d)
unfolding offset_datetime_to_system_time
offset_datetime_to_system_time_lem d h l = system_time_of-instant d.unix_timestamp d.nanosecond h l

select_job_timing-Ordered :
    (start end : Option SystemTime) (received : SystemTime)
    → Ordered (select_job_timing start end received)
unfolding select_job_timing reported_timing fallback_timing
select_job_timing-Ordered none none received = ground arith
select_job_timing-Ordered (some s) none received = ground arith
select_job_timing-Ordered none (some e) received = ground arith
select_job_timing-Ordered (some s) (some e) received = ground arith

abbrev pub StepIn : HistoricalTiming → WorkflowStepTrace → Type 0
StepIn parent step = (1 ≤ step.number) × Ordered step.timing × Within step.timing parent

select_step_timing-Within :
    (start end : Option SystemTime) (parent : HistoricalTiming)
    → Ordered parent
    → Ordered (select_step_timing start end parent)
      × Within (select_step_timing start end parent) parent
unfolding select_step_timing reported_within_parent fallback_timing
select_step_timing-Within none none parent h = ground arith
select_step_timing-Within (some s) none parent h = ground arith
select_step_timing-Within none (some e) parent h = ground arith
select_step_timing-Within (some s) (some e) parent h = ground arith

new_step_parts :
    (number : ℤ) (name : Option DisplayName) (conclusion : WorkflowConclusion)
    (timing : HistoricalTiming) (step : WorkflowStepTrace)
    → new_step number name conclusion timing ≡ some step
    → (1 ≤ step.number) × (step.timing ≡ timing)
unfolding new_step positive
new_step_parts (pos n) name conclusion timing step e = ground arith
new_step_parts (negsuc n) name conclusion timing step e = cc

filter_option-same :
    (run_id : WorkflowRunId) (run_attempt : WorkflowRunAttempt) (o : Option WorkflowRunContext)
    (c : WorkflowRunContext)
    → filter_option (same_run run_id run_attempt) o ≡ some c
    → (c.run_id ≡ run_id) × (c.run_attempt ≡ run_attempt)
filter_option-same run_id run_attempt none c e = cc
filter_option-same run_id run_attempt (some d) c e = ground arith

named_value :
    (value : Option Value) (n : DisplayName)
    → sanitize_display_name value ≡ some n
    → IsDisplayText n.text
unfolding sanitize_display_name
named_value value n e =
    let (text, _, sanitized) = bound_some (as_str value) _ n e in
    sanitize-IsDisplayText text n sanitized

few_kept : (ns : List PullRequestNumber) → length (new_pull_requests ns).numbers ≤ 20
unfolding new_pull_requests
few_kept ns = omega (arith, length-take 20 ns)

counted :
    (n : ℕ) (ps : List WorkflowStepProjection)
    → n + length ps < 2 ^ 64
    → count_elements n (map (λ p. some tt) ps) ≡ some (n + length ps)
unfolding count_elements
counted n [] h = ground arith
counted n (p ∷ ps) h = ground (arith, counted (n + 1) ps)

counted_all :
    (ps : List WorkflowStepProjection)
    → length ps < 2 ^ 64
    → count_elements 0 (map (λ p. some tt) ps) ≡ some (length ps)
counted_all ps h =
    let none_before : 0 + length ps ≡ length ps = omega arith in
    subst (λ k. count_elements 0 (map (λ p. some tt) ps) ≡ some k) none_before
      (counted 0 ps (omega arith))

-- The bounds of a workflow job's trace.
pub record IsBounded (job : WorkflowJobTrace) : Type 0 where
  pub timing_ordered : Ordered job.timing
  pub steps_within : All (StepIn job.timing) job.steps
  pub few_pull_requests : length job.pull_requests.numbers ≤ 20
  pub named : (n : DisplayName) → job.job_name ≡ some n → IsDisplayText n.text
  pub same_run_context :
      (c : WorkflowRunContext)
      → job.workflow_run_context ≡ some c
      → (c.run_id ≡ job.run_id) × (c.run_attempt ≡ job.run_attempt)

module _ (parse_rfc3339 : Text → Option OffsetDateTime) where
  project_step-StepIn :
      (timing : HistoricalTiming) (p : WorkflowStepProjection) (step : WorkflowStepTrace)
      → Ordered timing
      → project_step parse_rfc3339 timing p ≡ some step
      → StepIn timing step
  unfolding project_step
  project_step-StepIn timing p step h e =
      let (number, same) = new_step_parts p.number _ _ _ step e in
      let (ordered, inside) =
        select_step_timing-Within (parse_timestamp parse_rfc3339 p.started_at)
          (parse_timestamp parse_rfc3339 p.completed_at) timing h in
      (number, rw same ordered, rw same inside)

  project_steps-StepIn :
      (timing : HistoricalTiming) (ps : List WorkflowStepProjection)
      (steps : List WorkflowStepTrace)
      → Ordered timing
      → project_steps parse_rfc3339 timing ps ≡ some steps
      → All (StepIn timing) steps × (length steps ≡ length ps)
  unfolding project_steps
  project_steps-StepIn timing [] steps h e = ground arith
  project_steps-StepIn timing (p ∷ ps) steps h e =
      let (step, e1, k) = bound_some (project_step parse_rfc3339 timing p) _ steps e in
      let (rest, e2, k2) = bound_some (project_steps parse_rfc3339 timing ps) _ steps k in
      let (all_in, same) = project_steps-StepIn timing ps rest h e2 in
      ground (arith, project_step-StepIn timing p step h e1)

  -- The parts of a projection that succeeded.
  record Parts (p : WorkflowJobProjection) (name : CanonicalRepositoryName) (delivery : DeliveryId)
      (context : Option WorkflowRunContext) (checks : Option RequiredChecks) (t : WorkflowJobTrace)
      : Type 0 where
    received_at : SystemTime
    run_id : WorkflowRunId
    run_attempt : WorkflowRunAttempt
    job_id : WorkflowJobId
    steps : List WorkflowStepTrace
    is_run_id : new_run_id p.run_id ≡ some run_id
    is_run_attempt : new_run_attempt p.run_attempt ≡ some run_attempt
    is_job_id : new_job_id p.id ≡ some job_id
    are_steps :
        project_steps parse_rfc3339 (job_timing_of parse_rfc3339 p received_at) p.steps ≡ some steps
    is_trace :
        t
        ≡ trace_of p name delivery context checks
            (job_timing_of parse_rfc3339 p received_at)
            run_id
            run_attempt
            job_id
            steps

  module _ (name : CanonicalRepositoryName) (delivery : DeliveryId) (received : OffsetDateTime)
      (context : Option WorkflowRunContext) (checks : Option RequiredChecks) where
    project_completed_job-Parts :
        (p : WorkflowJobProjection) (t : WorkflowJobTrace)
        → project_completed_job parse_rfc3339 (some p) name delivery received context checks
          ≡ some t
        → Parts p name delivery context checks t
    unfolding project_completed_job
    project_completed_job-Parts p t e =
        let (at, _, k1) = bound_some (offset_datetime_to_system_time received) _ t e in
        let (run_id, e2, k2) = bound_some (new_run_id p.run_id) _ t k1 in
        let (run_attempt, e3, k3) = bound_some (new_run_attempt p.run_attempt) _ t k2 in
        let (job_id, e4, k4) = bound_some (new_job_id p.id) _ t k3 in
        let (steps, e5, k5) =
          bound_some (project_steps parse_rfc3339 (job_timing_of parse_rfc3339 p at) p.steps) _ t
            k4 in
        record {
          received_at = at;
          run_id = run_id;
          run_attempt = run_attempt;
          job_id = job_id;
          steps = steps;
          is_run_id = e2;
          is_run_attempt = e3;
          is_job_id = e4;
          are_steps = e5;
          is_trace = sym (some_inj _ _ k5);
        }

    -- Whatever the payload says, the projected trace is bounded: its interval is in order, each
    -- step's interval is in order and lies within it, step numbers are positive, at most 20 pull
    -- requests are kept, a job name is sanitized, and a run's context is that of the same attempt.
    pub project_completed_job-IsBounded :
        (p : WorkflowJobProjection) (t : WorkflowJobTrace)
        → project_completed_job parse_rfc3339 (some p) name delivery received context checks
          ≡ some t
        → IsBounded t
    project_completed_job-IsBounded p t e =
        let parts = project_completed_job-Parts p t e in
        let ordered =
          select_job_timing-Ordered (parse_timestamp parse_rfc3339 p.started_at)
            (parse_timestamp parse_rfc3339 p.completed_at) parts.received_at in
        rw parts.is_trace (record {
          timing_ordered = ordered;
          steps_within = (project_steps-StepIn _ p.steps parts.steps ordered parts.are_steps).0;
          few_pull_requests = few_kept _;
          named = λ n h. named_value p.name n h;
          same_run_context = λ c h. filter_option-same parts.run_id parts.run_attempt context c h;
        })

    -- A payload that projects to a trace, and whose admission view has the same identifiers and
    -- one element for each of its fewer than 2 ^ 64 steps, is admitted, with the trace's
    -- identifiers and its number of steps.
    pub inspect-project_completed_job :
        (p : WorkflowJobProjection) (t : WorkflowJobTrace) (a : WorkflowJobAdmissionProjection)
        → project_completed_job parse_rfc3339 (some p) name delivery received context checks
          ≡ some t
        → a.id ≡ p.id
        → a.run_id ≡ p.run_id
        → a.run_attempt ≡ p.run_attempt
        → a.steps ≡ map (λ step. some tt) p.steps
        → length p.steps < 2 ^ 64
        → inspect_completed_job (some a)
          ≡ some (record {
            run_id = t.run_id;
            run_attempt = t.run_attempt;
            job_id = t.job_id;
            step_count = length t.steps;
          })
    unfolding inspect_completed_job
    inspect-project_completed_job p t a e id run_id run_attempt steps small =
        let parts = project_completed_job-Parts p t e in
        let ordered =
          select_job_timing-Ordered (parse_timestamp parse_rfc3339 p.started_at)
            (parse_timestamp parse_rfc3339 p.completed_at) parts.received_at in
        rw
          (
            parts.is_trace,
            steps,
            counted_all p.steps small,
            run_id,
            run_attempt,
            id,
            parts.is_run_id,
            parts.is_run_attempt,
            parts.is_job_id,
            (project_steps-StepIn _ p.steps parts.steps ordered parts.are_steps).1,
          )
          refl
