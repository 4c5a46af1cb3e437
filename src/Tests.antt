-- ===== src/Tests.antt =====
-- Concrete inputs that meet the hypotheses of the theorems.
mod Bridges
mod Connections
mod Devices
mod Frames
mod Hosts
mod Messages
mod Ports
mod Shell
