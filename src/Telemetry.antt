-- ===== src/Telemetry.antt =====
-- src/telemetry: the export pipelines.
pub mod Queue
pub mod CommitSha
pub mod Workflow
pub mod Pipeline
pub mod Diagnostics
pub mod WorkflowError
