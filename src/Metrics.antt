-- ===== src/Metrics.antt =====
-- src/metrics.rs: the bounded label vocabularies, and the metric updates.
pub mod EventType
pub mod Action
pub mod Vocabulary
pub mod MergeQueue
