-- ===== src/Protocol.antt =====
-- internal/protocol.
pub mod Varint
pub mod Cursor
pub mod Commands
pub mod Catalog
pub mod Protect
pub mod Frame
pub mod Handshake
pub mod Transfer
pub mod Tlv
pub mod ShellCommand
