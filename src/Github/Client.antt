-- ===== src/Github/Client.antt =====
-- src/github/client.rs: the failures of the client, and the choice among the fields of an answer.
-- HTTP, the signed tokens and reading JSON are other crates'.
use github_webhook_exporter.Prelude.{
  ℕ, ◌==◌, List, [], ◌∷◌, filter_map, map, take, Text, if◌then◌else◌,
}
use github_webhook_exporter.Telemetry.Workflow.Names.{sanitize_display_name}
use github_webhook_exporter.Telemetry.Workflow.Required.{
  RequiredChecks, max_required_check_count, new_checks,
}

pub data GitHubClientError : Type 0 where
  private_key jwt transport unauthorized forbidden : GitHubClientError
  rate_limited unexpected_status decode : GitHubClientError

unfoldable pub from_status : ℕ → GitHubClientError
from_status status =
    if status == 401
    then unauthorized
    else if status == 429
    then rate_limited
    else if status == 403
    then forbidden
    else unexpected_status

pub record RequiredStatusCheckProjection : Type 0 where
  pub context : Text

pub record RequiredStatusChecksProjection : Type 0 where
  pub contexts : List Text
  pub checks : List RequiredStatusCheckProjection

abbrev retained : List Text → RequiredChecks
retained names = new_checks (take max_required_check_count (filter_map sanitize_display_name names))

abbrev chosen_names : List Text → List RequiredStatusCheckProjection → List Text
chosen_names contexts [] = contexts
chosen_names contexts (check ∷ checks) =
    map (λ (c : RequiredStatusCheckProjection). c.context) (check ∷ checks)

unfoldable pub into_required_checks : RequiredStatusChecksProjection → RequiredChecks
unfolding new_checks sanitize_display_name
into_required_checks answer = retained (chosen_names answer.contexts answer.checks)
