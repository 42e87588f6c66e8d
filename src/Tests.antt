-- ===== src/Tests.antt =====
-- Runs of the model at concrete inputs.
mod Fixtures
mod Auth
mod Overlap
mod Apps
mod Protocols
mod Control
mod Policy
mod Probe
mod Cli
mod Tunnel
mod System
