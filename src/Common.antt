-- ===== src/Common.antt =====
-- crates/common/src: the error type and the data model that every other crate uses.
pub mod Errors
pub mod Model
pub mod Settings
pub mod Sources
pub mod Truncation
mod Examples
