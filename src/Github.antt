-- ===== src/Github.antt =====
-- src/github: the reading of required checks from GitHub.
pub mod Client
pub mod Refresh
