-- ===== src/HostAuth.antt =====
-- internal/hostauth.
pub mod Identity
pub mod Signature
pub mod Decision
pub mod Registry
pub mod Decide
pub mod Notices
pub mod Operations
