-- ===== src/Analysis.antt =====
-- The detectors of crates/agent/src/analysis.rs: their findings, the periods by which they compare
-- dates, and the gaps between press releases and data.
pub mod Finding
pub mod Periods
pub mod Gaps
pub mod Sides
pub mod Order
mod Examples
