-- ===== src/Http.antt =====
-- http.rs: the HTTP protocol that authorized devices speak.
pub mod Routes
pub mod Routing
pub mod Limiters
pub mod Serve
pub mod Headers
pub mod Forwarding
pub mod Upgrade
pub mod Replies
pub mod Tunnel
pub mod Answers
pub mod Handover
