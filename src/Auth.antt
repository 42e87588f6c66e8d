-- ===== src/Auth.antt =====
-- auth.rs: the authorization state of the server, its files, and proofs about them.
pub mod Secret
pub mod State
pub mod Names
pub mod Store
pub mod Operations
pub mod Attempt
pub mod Access
pub mod Invariant
pub mod Persistence
pub mod Saving
pub mod Overlap
pub mod Expulsion
pub mod Trace
pub mod OneTime
pub mod Lockout
pub mod Redeem
pub mod NameLaws
pub mod Policy
pub mod Refinement
pub mod Simulation
