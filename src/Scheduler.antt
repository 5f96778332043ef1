-- ===== src/Scheduler.antt =====
-- The agent's passes over the data (crates/agent/src/scheduler.rs) and what they are asked to scan
-- (`ScanTarget` of crates/common/src/config.rs).
pub mod Targets
pub mod Collect
pub mod Detect
pub mod Pass
pub mod Honest
mod Examples
