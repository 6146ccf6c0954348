-- ===== src/Metrics/EventType.antt =====
-- src/metrics.rs: the event types of the label vocabulary, and their normalization.
use github_webhook_exporter.Prelude.{[], ◌∷◌, Text, lit, match_text}

pub data EventType : Type 0 where
  branch_protection_rule check_run check_suite create delete deployment : EventType
  deployment_status discussion discussion_comment issues issue_comment merge_group : EventType
  pull_request pull_request_review pull_request_review_comment push release repository : EventType
  status workflow_job workflow_run other : EventType

unfoldable pub event_type_as_str : EventType → Text
event_type_as_str branch_protection_rule = lit "branch_protection_rule"
event_type_as_str check_run = lit "check_run"
event_type_as_str check_suite = lit "check_suite"
event_type_as_str create = lit "create"
event_type_as_str delete = lit "delete"
event_type_as_str deployment = lit "deployment"
event_type_as_str deployment_status = lit "deployment_status"
event_type_as_str discussion = lit "discussion"
event_type_as_str discussion_comment = lit "discussion_comment"
event_type_as_str issues = lit "issues"
event_type_as_str issue_comment = lit "issue_comment"
event_type_as_str merge_group = lit "merge_group"
event_type_as_str pull_request = lit "pull_request"
event_type_as_str pull_request_review = lit "pull_request_review"
event_type_as_str pull_request_review_comment = lit "pull_request_review_comment"
event_type_as_str push = lit "push"
event_type_as_str release = lit "release"
event_type_as_str repository = lit "repository"
event_type_as_str status = lit "status"
event_type_as_str workflow_job = lit "workflow_job"
event_type_as_str workflow_run = lit "workflow_run"
event_type_as_str other = lit "other"

unfoldable pub normalize_event_type : Text → EventType
normalize_event_type =
    match_text
      ((lit "branch_protection_rule", branch_protection_rule)
        ∷ (lit "check_run", check_run)
        ∷ (lit "check_suite", check_suite)
        ∷ (lit "create", create)
        ∷ (lit "delete", delete)
        ∷ (lit "deployment", deployment)
        ∷ (lit "deployment_status", deployment_status)
        ∷ (lit "discussion", discussion)
        ∷ (lit "discussion_comment", discussion_comment)
        ∷ (lit "issues", issues)
        ∷ (lit "issue_comment", issue_comment)
        ∷ (lit "merge_group", merge_group)
        ∷ (lit "pull_request", pull_request)
        ∷ (lit "pull_request_review", pull_request_review)
        ∷ (lit "pull_request_review_comment", pull_request_review_comment)
        ∷ (lit "push", push)
        ∷ (lit "release", release)
        ∷ (lit "repository", repository)
        ∷ (lit "status", status)
        ∷ (lit "workflow_job", workflow_job)
        ∷ (lit "workflow_run", workflow_run)
        ∷ [])
      other
