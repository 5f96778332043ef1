-- ===== src/Persist.antt =====
-- Snapshots of the stores in files (crates/agent/src/persist.rs).
pub mod Files
pub mod Atomic
pub mod Debounce
pub mod Saved
pub mod Pending
mod Examples
