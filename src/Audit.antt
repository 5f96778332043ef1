-- ===== src/Audit.antt =====
-- What makes a published insight checkable: its citation with the hash of its evidence
-- (crates/agent/src/cite.rs), the record of how it was produced (provenance.rs), and the routes that
-- show both (crates/api/src/routes/audit.rs).
pub mod Json
pub mod Cite
pub mod Render
pub mod Mention
pub mod Hash
pub mod Permalink
pub mod Provenance
pub mod Routes
pub mod Log
pub mod Trail
mod Examples
