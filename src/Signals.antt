-- ===== src/Signals.antt =====
-- The signals of the users (crates/agent/src/signal.rs, crates/api/src/routes/signals.rs).
pub mod Store
pub mod Id
pub mod Requests
pub mod Unique
pub mod Isolation
mod Examples
