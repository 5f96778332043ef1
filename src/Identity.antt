-- ===== src/Identity.antt =====
-- The identity tier: crates/agent/src/identity.rs.
pub mod Store
pub mod Sections
pub mod Login
pub mod Restore
mod Examples
