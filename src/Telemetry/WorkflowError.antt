-- ===== src/Telemetry/WorkflowError.antt =====
-- src/telemetry/workflow_error.rs: the synthetic errors of failing workflow tasks.
pub mod Grouping
mod Tests
use github_webhook_exporter.Prelude.{
  ℕ, zero, suc, ◌+◌, ◌/◌, ◌%◌, Bool, List, [], ◌∷◌, ◌++◌, Text, lit, Option, none, some, ltb,
  if◌then◌else◌,
}
use github_webhook_exporter.Telemetry.Workflow.Names.{DisplayName}
use github_webhook_exporter.Telemetry.Workflow.Vocabulary.{
  WorkflowJobId, WorkflowConclusion, failure, timed_out, conclusion_as_str,
}
use github_webhook_exporter.Telemetry.Workflow.Timing.{SystemTime}
use github_webhook_exporter.Telemetry.Workflow.Trace.{WorkflowJobTrace, WorkflowStepTrace}

pub data WorkflowTaskKind : Type 0 where
  job step pipeline_task : WorkflowTaskKind

unfoldable pub kind_as_str : WorkflowTaskKind → Text
kind_as_str job = lit "job"
kind_as_str step = lit "step"
kind_as_str pipeline_task = lit "pipeline-task"

unfoldable pub span_operation : WorkflowTaskKind → Text
span_operation job = lit "github.actions.job"
span_operation step = lit "github.actions.step"
span_operation pipeline_task = lit "github.actions.pipeline.task"

-- A positive `i64` in decimal: its digits, of which there are at most 19, the last one first.
unfoldable pub digits_from : ℕ → ℕ → Text
digits_from zero n = []
digits_from (suc fuel) n =
    let rest = digits_from fuel (n / 10) in
    if ltb n 10 then (b'0' + n) ∷ [] else (b'0' + n % 10) ∷ rest

abbrev reverse_onto : Text → Text → Text
reverse_onto acc [] = acc
reverse_onto acc (c ∷ s) = reverse_onto (c ∷ acc) s

unfoldable pub decimal : ℕ → Text
unfolding digits_from
decimal n = reverse_onto [] (digits_from 19 n)

abbrev map_or_else : Text → Option DisplayName → Text
map_or_else d none = d
map_or_else d (some name) = name.text

abbrev pub unnamed_job_grouping_name : Text
unnamed_job_grouping_name = lit "unnamed-job"

-- The names that a span's description shows in place of absent ones.
unfoldable pub workflow_name : WorkflowJobTrace → Text
workflow_name j = map_or_else (lit "workflow") j.workflow_name

unfoldable pub job_name : WorkflowJobTrace → Text
job_name j = map_or_else (lit "job") j.job_name

unfoldable pub step_name : WorkflowStepTrace → Text
step_name s = map_or_else (lit "step") s.name

unfoldable pub job_span_name : WorkflowJobTrace → Text
unfolding workflow_name job_name
job_span_name j = workflow_name j ++ lit " / " ++ job_name j

unfoldable pub step_span_name : WorkflowJobTrace → WorkflowStepTrace → Text
unfolding workflow_name job_name step_name
step_span_name j s = workflow_name j ++ lit " / " ++ job_name j ++ lit " / " ++ step_name s

unfoldable pub step_description : WorkflowStepTrace → Text
unfolding step_name
step_description s = step_name s

pub record WorkflowErrorOrigin : Type 0 where
  pub repository_name : Text
  pub workflow_name : Text
  pub grouping_job_name : Text

pub record WorkflowErrorParts : Type 0 where
  pub kind : WorkflowTaskKind
  pub conclusion : WorkflowConclusion
  pub task_name : Text
  pub grouping_task_name : Text
  pub task_run_id : Text
  pub trace_description : Text
  pub timestamp : SystemTime
  pub trace_id : ℕ
  pub span_id : ℕ

pub record SyntheticWorkflowError : Type 0 where
  pub kind : WorkflowTaskKind
  pub exception_type : Text
  pub description : Text
  pub repository_name : Text
  pub workflow_name : Text
  pub task_name : Text
  pub grouping_job_name : Text
  pub grouping_task_name : Text
  pub task_run_id : Text
  pub trace_description : Text
  pub conclusion : Text
  pub timestamp : SystemTime
  pub trace_id : ℕ
  pub span_id : ℕ

-- The exception type and the prefix of its description; `none` is the `unreachable!` arm.
unfoldable pub exception_of : WorkflowTaskKind → WorkflowConclusion → Option (Text × Text)
exception_of job failure = some (lit "GitHubActionsTaskFailure", lit "CI task failed: ")
exception_of step failure = some (lit "GitHubActionsTaskFailure", lit "CI task failed: ")
exception_of pipeline_task failure =
    some (lit "GitHubActionsTaskFailure", lit "CI run job failed: ")
exception_of job timed_out = some (lit "GitHubActionsTaskTimeout", lit "CI task timed out: ")
exception_of step timed_out = some (lit "GitHubActionsTaskTimeout", lit "CI task timed out: ")
exception_of pipeline_task timed_out =
    some (lit "GitHubActionsTaskTimeout", lit "CI run job timed out: ")
exception_of kind conclusion = none

abbrev with_exception :
    WorkflowErrorOrigin → WorkflowErrorParts → Option (Text × Text) → Option SyntheticWorkflowError
with_exception origin parts none = none
with_exception origin parts (some (exception_type, prefix)) = some (record {
  kind = parts.kind;
  exception_type = exception_type;
  description = prefix ++ parts.task_name;
  repository_name = origin.repository_name;
  workflow_name = origin.workflow_name;
  task_name = parts.task_name;
  grouping_job_name = origin.grouping_job_name;
  grouping_task_name = parts.grouping_task_name;
  task_run_id = parts.task_run_id;
  trace_description = parts.trace_description;
  conclusion = conclusion_as_str parts.conclusion;
  timestamp = parts.timestamp;
  trace_id = parts.trace_id;
  span_id = parts.span_id;
})

-- `none` means that the program panics.
unfoldable pub new_error : WorkflowErrorOrigin → WorkflowErrorParts → Option SyntheticWorkflowError
unfolding exception_of conclusion_as_str
new_error origin parts = with_exception origin parts (exception_of parts.kind parts.conclusion)

unfoldable pub job_origin : WorkflowJobTrace → WorkflowErrorOrigin
unfolding workflow_name
job_origin j = record {
  repository_name = j.repository_name.name;
  workflow_name = workflow_name j;
  grouping_job_name = map_or_else unnamed_job_grouping_name j.job_name;
}

unfoldable pub for_step :
    WorkflowJobTrace → WorkflowStepTrace → ℕ → ℕ → Option SyntheticWorkflowError
unfolding decimal new_error job_origin step_description
for_step j s trace_id span_id =
    let task_run_id = decimal j.job_id.id ++ lit ":" ++ decimal s.number in
    new_error (job_origin j) (record {
      kind = step;
      conclusion = s.conclusion;
      task_name = map_or_else (lit "task " ++ task_run_id) s.name;
      grouping_task_name = map_or_else (lit "unnamed-step:" ++ decimal s.number) s.name;
      task_run_id = task_run_id;
      trace_description = step_description s;
      timestamp = s.timing.end;
      trace_id = trace_id;
      span_id = span_id;
    })

unfoldable pub job_error_parts : WorkflowJobTrace → ℕ → ℕ → WorkflowErrorParts
unfolding decimal job_span_name
job_error_parts j trace_id span_id =
    let task_run_id = decimal j.job_id.id in
    record {
      kind = job;
      conclusion = j.conclusion;
      task_name = map_or_else (lit "task " ++ task_run_id) j.job_name;
      grouping_task_name = map_or_else unnamed_job_grouping_name j.job_name;
      task_run_id = task_run_id;
      trace_description = job_span_name j;
      timestamp = j.timing.end;
      trace_id = trace_id;
      span_id = span_id;
    }

unfoldable pub for_job : WorkflowJobTrace → ℕ → ℕ → Option SyntheticWorkflowError
unfolding new_error job_origin job_error_parts
for_job j trace_id span_id = new_error (job_origin j) (job_error_parts j trace_id span_id)

pub record PipelineTaskErrorParts : Type 0 where
  pub repository_name : Text
  pub workflow_name : Text
  pub job_name : Option DisplayName
  pub job_id : WorkflowJobId
  pub conclusion : WorkflowConclusion
  pub span_description : Text
  pub timestamp : SystemTime
  pub trace_id : ℕ
  pub span_id : ℕ

unfoldable pub for_pipeline_task : PipelineTaskErrorParts → Option SyntheticWorkflowError
unfolding decimal new_error
for_pipeline_task task =
    let task_run_id = decimal task.job_id.id in
    let grouping_task_name = map_or_else unnamed_job_grouping_name task.job_name in
    new_error
      (record {
        repository_name = task.repository_name;
        workflow_name = task.workflow_name;
        grouping_job_name = grouping_task_name;
      })
      (record {
        kind = pipeline_task;
        conclusion = task.conclusion;
        task_name = map_or_else (lit "task " ++ task_run_id) task.job_name;
        grouping_task_name = grouping_task_name;
        task_run_id = task_run_id;
        trace_description = task.span_description;
        timestamp = task.timestamp;
        trace_id = task.trace_id;
        span_id = task.span_id;
      })

unfoldable pub span_event_attributes : SyntheticWorkflowError → List (Text × Text)
span_event_attributes e =
    (lit "exception.type", e.exception_type) ∷ (lit "exception.message", e.description) ∷ []

unfoldable pub fingerprint : SyntheticWorkflowError → List Text
unfolding kind_as_str
fingerprint e =
    lit "github-actions-task"
    ∷ kind_as_str e.kind
    ∷ e.repository_name
    ∷ e.workflow_name
    ∷ e.grouping_job_name
    ∷ e.grouping_task_name
    ∷ e.conclusion
    ∷ []
