-- ===== src/Bridge.antt =====
-- internal/bridge.
pub mod TempStore
pub mod Paths
pub mod Upload
