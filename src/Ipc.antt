-- ===== src/Ipc.antt =====
-- ipc: the control socket between the command line and the daemon.
pub mod Protocol
pub mod Session
pub mod Handshake
pub mod Delivery
pub mod Dialogue
