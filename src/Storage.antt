-- ===== src/Storage.antt =====
-- src/storage: the SQLite tables and the stores over them.
pub mod Sql
pub mod Prune
pub mod Tables
pub mod MergeQueue
pub mod Delivery
pub mod Repository
pub mod Upsert
pub mod RequiredCheck
pub mod WorkflowRun
pub mod WorkflowJobLink
