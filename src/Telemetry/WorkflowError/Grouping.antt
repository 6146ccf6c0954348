-- ===== src/Telemetry/WorkflowError/Grouping.antt =====
-- Which tasks have an error in src/telemetry/workflow_error.rs, and how the errors are grouped.
use github_webhook_exporter.Prelude.{
  ℕ, ◌≡◌, ◌≢◌, ◌∙◌, refl, sym, ap, true, List, [], ◌∷◌, Text, lit, Option, none, some,
}
use github_webhook_exporter.Prelude.Options.{some_inj}
use github_webhook_exporter.Telemetry.Workflow.Vocabulary.{
  WorkflowConclusion, success, failure, cancelled, skipped, timed_out, neutral, other, error_type,
  emits_synthetic_error, conclusion_as_str,
}
use github_webhook_exporter.Telemetry.Workflow.Trace.{WorkflowJobTrace}
use github_webhook_exporter.Telemetry.WorkflowError.{
  WorkflowTaskKind, job, step, pipeline_task, kind_as_str, WorkflowErrorOrigin, WorkflowErrorParts,
  SyntheticWorkflowError, exception_of, with_exception, new_error, workflow_name, job_origin,
  for_job, job_error_parts, fingerprint,
}

exception_of_lem :
    (k : WorkflowTaskKind) (c : WorkflowConclusion)
    → emits_synthetic_error c ≡ true
    → (t : Text) × (prefix : Text) × (exception_of k c ≡ some (t, prefix)) × (error_type c ≡ some t)
unfolding emits_synthetic_error exception_of error_type
exception_of_lem job failure h =
    (lit "GitHubActionsTaskFailure", lit "CI task failed: ", refl, refl)
exception_of_lem step failure h =
    (lit "GitHubActionsTaskFailure", lit "CI task failed: ", refl, refl)
exception_of_lem pipeline_task failure h =
    (lit "GitHubActionsTaskFailure", lit "CI run job failed: ", refl, refl)
exception_of_lem job timed_out h =
    (lit "GitHubActionsTaskTimeout", lit "CI task timed out: ", refl, refl)
exception_of_lem step timed_out h =
    (lit "GitHubActionsTaskTimeout", lit "CI task timed out: ", refl, refl)
exception_of_lem pipeline_task timed_out h =
    (lit "GitHubActionsTaskTimeout", lit "CI run job timed out: ", refl, refl)
exception_of_lem k success h = cc
exception_of_lem k cancelled h = cc
exception_of_lem k skipped h = cc
exception_of_lem k neutral h = cc
exception_of_lem k other h = cc

-- The arm that must not be reached is not reached for a conclusion that emits a synthetic error,
-- and the exception then has the conclusion's error type.
pub new_error_reachable :
    (origin : WorkflowErrorOrigin) (parts : WorkflowErrorParts)
    → emits_synthetic_error parts.conclusion ≡ true
    → (e : SyntheticWorkflowError) × (new_error origin parts ≡ some e)
      × (error_type parts.conclusion ≡ some e.exception_type)
unfolding new_error
new_error_reachable origin parts h =
    let (t, prefix, e, same) = exception_of_lem parts.kind parts.conclusion h in
    (_, ap (with_exception origin parts) e, same)

-- What an error is grouped by.
abbrev group_of : WorkflowErrorOrigin → WorkflowErrorParts → List Text
group_of origin parts =
    lit "github-actions-task"
    ∷ kind_as_str parts.kind
    ∷ origin.repository_name
    ∷ origin.workflow_name
    ∷ origin.grouping_job_name
    ∷ parts.grouping_task_name
    ∷ conclusion_as_str parts.conclusion
    ∷ []

grouped_with :
    (origin : WorkflowErrorOrigin) (parts : WorkflowErrorParts) (x : Option (Text × Text))
    (e : SyntheticWorkflowError)
    → with_exception origin parts x ≡ some e
    → fingerprint e ≡ group_of origin parts
unfolding fingerprint
grouped_with origin parts none e h = cc
grouped_with origin parts (some (t, prefix)) e h = sym (ap fingerprint (some_inj _ _ h))

grouped :
    (origin : WorkflowErrorOrigin) (parts : WorkflowErrorParts) (e : SyntheticWorkflowError)
    → new_error origin parts ≡ some e
    → fingerprint e ≡ group_of origin parts
unfolding new_error
grouped origin parts e h = grouped_with origin parts (exception_of parts.kind parts.conclusion) e h

same_group :
    (j j' : WorkflowJobTrace) (t t' sp sp' : ℕ)
    → j.repository_name ≡ j'.repository_name
    → j.workflow_name ≡ j'.workflow_name
    → j.job_name ≡ j'.job_name
    → j.conclusion ≡ j'.conclusion
    → group_of (job_origin j) (job_error_parts j t sp)
      ≡ group_of (job_origin j') (job_error_parts j' t' sp')
unfolding job_origin workflow_name job_error_parts
same_group j j' t t' sp sp' repository workflow name conclusion =
    rw (repository, workflow, name, conclusion) refl

-- Two jobs of one repository, with the same workflow name, job name and conclusion, are grouped
-- together, whatever their run, identifiers, steps and times are.
pub for_job_grouped :
    (j j' : WorkflowJobTrace) (t t' sp sp' : ℕ) (e e' : SyntheticWorkflowError)
    → for_job j t sp ≡ some e
    → for_job j' t' sp' ≡ some e'
    → j.repository_name ≡ j'.repository_name
    → j.workflow_name ≡ j'.workflow_name
    → j.job_name ≡ j'.job_name
    → j.conclusion ≡ j'.conclusion
    → fingerprint e ≡ fingerprint e'
unfolding for_job job_origin workflow_name job_error_parts
for_job_grouped j j' t t' sp sp' e e' h h' repository workflow name conclusion =
    grouped (job_origin j) (job_error_parts j t sp) e h
    ∙ (same_group j j' t t' sp sp' repository workflow name conclusion
        ∙ sym (grouped (job_origin j') (job_error_parts j' t' sp') e' h'))

abbrev second : List Text → Text
second [] = []
second (x ∷ []) = []
second (x ∷ y ∷ xs) = y

same_kind : (k k' : WorkflowTaskKind) → kind_as_str k ≡ kind_as_str k' → k ≡ k'
unfolding kind_as_str
same_kind job job h = refl
same_kind step step h = refl
same_kind pipeline_task pipeline_task h = refl
same_kind job step h = cc
same_kind job pipeline_task h = cc
same_kind step job h = cc
same_kind step pipeline_task h = cc
same_kind pipeline_task job h = cc
same_kind pipeline_task step h = cc

-- Errors of different kinds of task are never grouped together.
pub kinds_apart :
    (origin origin' : WorkflowErrorOrigin) (parts parts' : WorkflowErrorParts)
    (e e' : SyntheticWorkflowError)
    → new_error origin parts ≡ some e
    → new_error origin' parts' ≡ some e'
    → parts.kind ≢ parts'.kind
    → fingerprint e ≢ fingerprint e'
kinds_apart origin origin' parts parts' e e' h h' apart same = apart (
    same_kind parts.kind parts'.kind
      (ap second (sym (grouped origin parts e h) ∙ (same ∙ grouped origin' parts' e' h'))))
