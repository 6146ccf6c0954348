-- ===== src/Api.antt =====
-- src/api: what the handlers of authenticated events do.
pub mod PullRequest
pub mod MergeGroup
pub mod WorkflowRun
pub mod WorkflowJob
pub mod Errors
pub mod Webhook
pub mod Repositories
