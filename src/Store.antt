-- ===== src/Store.antt =====
-- crates/store/src: the cache-first record store of memory.rs, its lineage sidecar (lineage.rs), and
-- the default methods of the `RecordStore` trait (lib.rs). moka's cache is a parameter: `Cache.antt`
-- has its interface. Each method runs without interruption, on the state that its locks guard.
pub mod Ids
pub mod Cache
pub mod Memory
pub mod Catalog
pub mod Paging
pub mod Lineage
pub mod Recorded
pub mod Canonical
pub mod ById
mod Examples
