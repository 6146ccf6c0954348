-- ===== src/Api/WorkflowRun.antt =====
-- src/api/workflow_run.rs: what a `workflow_run` event says of its run. Reading the JSON text is
-- serde's; the functions begin with the projection that it yields, `none` where it fails.
use github_webhook_exporter.Prelude.{
  ◌≡◌, ◌≢◌, ◌↔◌, true, List, [], ◌∷◌, all, filter_map, Text, text_eq, text_eq_refl, subst,
  text_eq→eq, refl, sym, ap, &&-eq_true, Option, none, some, ℤ, arith, if◌then◌else◌,
}
use github_webhook_exporter.Prelude.Options.{◌>>=◌, or_else}
use github_webhook_exporter.Domain.MergeQueue
use github_webhook_exporter.Domain.MergeQueue.{PullRequestNumber}
use github_webhook_exporter.Telemetry.CommitSha.{CommitSha, parse_commit_sha}
use github_webhook_exporter.Telemetry.Workflow.Names.{
  DisplayName, sanitize_display_name, WorkflowBranch, sanitize_branch,
}
use github_webhook_exporter.Telemetry.Workflow.Vocabulary.{
  new_run_id, new_run_attempt, normalize_event, WorkflowRunId, WorkflowRunAttempt,
  WorkflowPullRequests, new_pull_requests,
}
use github_webhook_exporter.Telemetry.Workflow.Trace.{WorkflowRunContext}
use github_webhook_exporter.Api.MergeGroup.{Value, as_str}

-- The `ref` of a branch.
pub record BranchProjection : Type 0 where
  pub reference : Option Value

pub record PullRequestProjection : Type 0 where
  pub number : Option ℤ
  pub head : Option BranchProjection
  pub base : Option BranchProjection

-- `WorkflowRunEnvelope` holds one of these and nothing else.
pub record WorkflowRunProjection : Type 0 where
  pub id : ℤ
  pub run_attempt : ℤ
  pub name : Option Value
  pub event : Option Value
  pub head_branch : Option Value
  pub head_sha : Option Value
  pub pull_requests : List PullRequestProjection

pub record WorkflowRunSummary : Type 0 where
  pub workflow_name : Option DisplayName
  pub head_sha : Option CommitSha
  pub pull_requests : WorkflowPullRequests

-- The branches that the loop sees.
unfoldable pub selected_branches :
    List PullRequestProjection
    → (PullRequestProjection → Option BranchProjection)
    → List WorkflowBranch
unfolding sanitize_branch
selected_branches pull_requests select = filter_map sanitize_branch (
    filter_map (λ (branch : BranchProjection). as_str branch.reference)
      (filter_map select pull_requests))

-- The loop, from the branch found so far.
unfoldable pub unique_from : Option WorkflowBranch → List WorkflowBranch → Option WorkflowBranch
unfolding text_eq
unique_from unique [] = unique
unique_from none (branch ∷ branches) = unique_from (some branch) branches
unique_from (some current) (branch ∷ branches) =
    let rest = unique_from (some current) branches in
    if text_eq current.text branch.text then rest else none

unfoldable pub unique_branch :
    List PullRequestProjection
    → (PullRequestProjection → Option BranchProjection)
    → Option WorkflowBranch
unfolding selected_branches unique_from
unique_branch pull_requests select = unique_from none (selected_branches pull_requests select)

abbrev context_of : WorkflowRunProjection → WorkflowRunId → WorkflowRunAttempt → WorkflowRunContext
context_of workflow_run run_id run_attempt = record {
  run_id = run_id;
  run_attempt = run_attempt;
  event = normalize_event (as_str workflow_run.event);
  source_branch =
      or_else (as_str workflow_run.head_branch >>= sanitize_branch)
        (unique_branch workflow_run.pull_requests (λ p. p.head));
  target_branch = unique_branch workflow_run.pull_requests (λ p. p.base);
}

unfoldable pub project_context : Option WorkflowRunProjection → Option WorkflowRunContext
unfolding new_run_id new_run_attempt normalize_event unique_branch
project_context envelope = do
  workflow_run ← envelope
  run_id ← new_run_id workflow_run.id
  run_attempt ← new_run_attempt workflow_run.run_attempt
  some (context_of workflow_run run_id run_attempt)

unfoldable pub project_run_summary : Option WorkflowRunProjection → Option WorkflowRunSummary
unfolding sanitize_display_name parse_commit_sha new_pull_requests
project_run_summary envelope = do
  workflow_run ← envelope
  some (record {
    workflow_name = as_str workflow_run.name >>= sanitize_display_name;
    head_sha = as_str workflow_run.head_sha >>= parse_commit_sha;
    pull_requests = new_pull_requests (
        filter_map MergeQueue.new
          (filter_map (λ (p : PullRequestProjection). p.number) workflow_run.pull_requests));
  })

all_equal :
    (current b : WorkflowBranch) (branches : List WorkflowBranch)
    → (unique_from (some current) branches ≡ some b)
      ↔ ((current ≡ b) × (all (λ c. text_eq current.text c.text) branches ≡ true))
unfolding unique_from
all_equal current b [] = ground arith
all_equal current b (branch ∷ branches) = ground (arith, all_equal current b branches)

abbrev with_text : Text → WorkflowBranch
with_text s = record { text = s }

chosen :
    (b : WorkflowBranch) (branches : List WorkflowBranch)
    → (unique_from none branches ≡ some b)
      ↔ ((branches ≢ []) × (all (λ c. text_eq b.text c.text) branches ≡ true))
unfolding unique_from
chosen b [] = ((λ e. cc), λ h. absurd (h.0 refl))
chosen b (branch ∷ branches) =
    let (there, back) = all_equal branch b branches in
    (
      λ e.
          let (same, rest) = there e in
          (
            (λ n. cc),
            subst
                (λ (c : WorkflowBranch).
                  all (λ d. text_eq c.text d.text) (branch ∷ branches) ≡ true)
                same (rw (text_eq_refl branch.text) rest),
          ),
      λ h.
          let (t, rest) = &&-eq_true (text_eq b.text branch.text) _ h.1 in
          let same : branch ≡ b = ap with_text (sym (text_eq→eq b.text branch.text t)) in
          back (same, rw same rest),
    )

-- A branch is chosen exactly when the pull requests name a valid one and no other.
pub unique_branch_iff :
    (pull_requests : List PullRequestProjection)
    (select : PullRequestProjection → Option BranchProjection) (b : WorkflowBranch)
    → (unique_branch pull_requests select ≡ some b) ↔ (
        (selected_branches pull_requests select ≢ [])
        × (all (λ c. text_eq b.text c.text) (selected_branches pull_requests select) ≡ true))
unfolding unique_branch
unique_branch_iff pull_requests select b = chosen b (selected_branches pull_requests select)
