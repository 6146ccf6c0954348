-- ===== src/Security.antt =====
-- src/security: repository names, secrets, signatures and credentials.
pub mod Names
pub mod Secrets
pub mod Signature
pub mod Admin
mod Tests
