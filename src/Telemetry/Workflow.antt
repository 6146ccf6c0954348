-- ===== src/Telemetry/Workflow.antt =====
-- src/telemetry/workflow.rs: the bounded values of a workflow job's trace.
pub mod Names
pub mod Sanitized
pub mod Required
pub mod RequiredSet
pub mod Vocabulary
pub mod Timing
pub mod Trace
mod Tests
