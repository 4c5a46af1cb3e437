-- ===== src/Gateway.antt =====
-- internal/gateway.
pub mod Connection
pub mod Channels
pub mod Input
pub mod Shell
pub mod Permission
pub mod Hosts
pub mod Handshake
pub mod Listener
pub mod Route
