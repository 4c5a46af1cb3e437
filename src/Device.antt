-- ===== src/Device.antt =====
-- internal/device.
pub mod Registry
