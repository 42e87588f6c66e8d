-- ===== src/Discovery.antt =====
-- discovery/: which local web apps a scan finds and keeps.
pub mod Ip
pub mod Model
pub mod Authority
pub mod Listener
pub mod Sockets
pub mod Filtering
pub mod Denylist
pub mod Engine
pub mod Credible
pub mod Caching
pub mod Exposure
pub mod Run
pub mod Probe
