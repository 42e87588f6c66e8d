-- ===== src/Discovery/Probe.antt =====
-- discovery/probe.rs: the probe of an origin, from the bytes that arrive to the name of the page.
pub mod Bytes
pub mod Searching
pub mod Html
pub mod Response
pub mod Exchange
pub mod Naming
pub mod Redirects
