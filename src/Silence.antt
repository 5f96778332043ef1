-- ===== src/Silence.antt =====
-- The Silence Index (crates/agent/src/silence.rs) and its form over a registry of signals
-- (crates/agent/src/transparency.rs).
pub mod Period
pub mod Index
pub mod Registry
pub mod Composite
pub mod Scope
pub mod Equivalence
pub mod Detected
mod Examples
