-- ===== src/Investigations.antt =====
-- The investigations: crates/agent/src/investigation.rs and the handlers of
-- crates/api/src/routes/investigations.rs.
pub mod Store
pub mod Requests
pub mod Invariant
pub mod Isolation
pub mod Secrecy
mod Examples
