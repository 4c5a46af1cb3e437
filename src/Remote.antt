-- ===== src/Remote.antt =====
-- internal/remote.
pub mod Ports
