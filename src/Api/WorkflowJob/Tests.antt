-- ===== src/Api/WorkflowJob/Tests.antt =====
-- The theorems on the projection of a workflow job, at one payload with a step.
use github_webhook_exporter.Prelude.{
  ◌≡◌, refl, pos, negsuc, none, some, [], ◌∷◌, length, Text, arith, Option,
}
use github_webhook_exporter.Domain.Delivery.{DeliveryId}
use github_webhook_exporter.Fixtures.{octo, run_context, two_checks}
use github_webhook_exporter.Telemetry.Workflow.Vocabulary
use github_webhook_exporter.Telemetry.Workflow.Timing.{HistoricalTiming, fallback}
use github_webhook_exporter.Telemetry.Workflow.Trace.{WorkflowJobTrace}
use github_webhook_exporter.Api.WorkflowJob.{
  OffsetDateTime, WorkflowJobProjection, WorkflowStepProjection, WorkflowJobAdmissionProjection,
  inspect_completed_job, project_completed_job, offset_datetime_to_system_time,
}
use github_webhook_exporter.Api.WorkflowJob.Bounded.{
  instant, offset_datetime_to_system_time_lem, IsBounded, project_completed_job-IsBounded,
  inspect-project_completed_job,
}

abbrev received : OffsetDateTime
received = record { unix_timestamp = pos 1; nanosecond = 0 }

-- One nanosecond before the Unix epoch.
abbrev before : OffsetDateTime
before = record { unix_timestamp = negsuc 0; nanosecond = 999999999 }

offset_datetime_to_system_time_lem_example :
    offset_datetime_to_system_time before ≡ some (instant before)
offset_datetime_to_system_time_lem_example =
    offset_datetime_to_system_time_lem before (omega arith, omega arith) (omega arith)

-- No time can be read.
abbrev unread : Text → Option OffsetDateTime
unread s = none

abbrev delivery : DeliveryId
delivery = record { uuid = 102 }

abbrev step : WorkflowStepProjection
step = record {
  number = pos 1;
  name = none;
  conclusion = none;
  started_at = none;
  completed_at = none;
}

abbrev payload : WorkflowJobProjection
payload = record {
  id = pos 5;
  run_id = pos 77;
  run_attempt = pos 1;
  workflow_name = none;
  name = none;
  conclusion = none;
  head_sha = none;
  started_at = none;
  completed_at = none;
  pull_requests = [];
  steps = step ∷ [];
}

abbrev admission : WorkflowJobAdmissionProjection
admission = record { id = pos 5; run_id = pos 77; run_attempt = pos 1; steps = some tt ∷ [] }

abbrev received_timing : HistoricalTiming
received_timing = record { start = pos 1000000000; end = pos 1000000000; source = fallback }

abbrev trace : WorkflowJobTrace
trace = record {
  repository_name = octo;
  delivery_id = delivery;
  workflow_name = none;
  run_id = record { id = 77 };
  run_attempt = record { attempt = 1 };
  job_id = record { id = 5 };
  job_name = none;
  conclusion = Vocabulary.other;
  head_sha = none;
  pull_requests = record { numbers = [] };
  workflow_run_context = some run_context;
  required = none;
  timing = received_timing;
  steps =
      record { number = 1; name = none; conclusion = Vocabulary.other; timing = received_timing }
      ∷ [];
}

projected :
    project_completed_job unread
      (some payload)
      octo
      delivery
      received
      (some run_context)
      (some two_checks)
    ≡ some trace
unfolding project_completed_job
projected = refl

project_completed_job-IsBounded_example : IsBounded trace
project_completed_job-IsBounded_example =
    project_completed_job-IsBounded unread octo delivery received (some run_context)
      (some two_checks) payload trace projected

inspect-project_completed_job_example :
    inspect_completed_job (some admission)
    ≡ some (record {
      run_id = trace.run_id;
      run_attempt = trace.run_attempt;
      job_id = trace.job_id;
      step_count = length trace.steps;
    })
inspect-project_completed_job_example =
    inspect-project_completed_job unread octo delivery received (some run_context) (some two_checks)
      payload trace admission projected refl refl refl refl (omega arith)
