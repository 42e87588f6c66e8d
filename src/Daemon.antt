-- ===== src/Daemon.antt =====
-- daemon.rs: the state that the control socket works on, and its requests.
pub mod State
pub mod Handle
pub mod Waiting
pub mod Errors
pub mod Requests
pub mod Invariant
