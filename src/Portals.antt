-- ===== src/Portals.antt =====
-- The comparison of the property portals (crates/connectors/src/property_canon.rs).
pub mod Canon
pub mod Median
pub mod Composite
pub mod Divergence
pub mod Shuffle
pub mod Undated
mod Examples
