-- ===== src/Domain.antt =====
-- src/domain: validated values of deliveries, repositories and merge-queue attempts.
pub mod Time
pub mod MergeQueue
pub mod Delivery
pub mod Repository
