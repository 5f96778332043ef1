-- ===== src/Insights.antt =====
-- crates/agent/src/insight.rs: findings, their history, and feedback on them.
pub mod Types
pub mod Store
pub mod Evolution
pub mod Invariant
pub mod Snapshot
pub mod Listing
pub mod Feedback
mod Examples
