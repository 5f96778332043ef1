-- ===== src/Agent.antt =====
-- The agent's conversations (crates/agent/src/llm.rs, loop_mod.rs) and the audit trail of what it
-- publishes (provenance.rs).
pub mod Llm
pub mod Loop
pub mod Run
pub mod Bounds
pub mod Brief
pub mod Ranking
mod BriefExamples
mod Examples
