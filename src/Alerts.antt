-- ===== src/Alerts.antt =====
-- crates/agent/src/alerts.rs: which findings are pushed, to which sinks, and what is logged of it.
pub mod Window
pub mod Log
pub mod Dispatcher
pub mod Bounds
pub mod Recall
pub mod Configured
pub mod Calls
pub mod Delivery
pub mod Repeat
mod Examples
