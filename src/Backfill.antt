-- ===== src/Backfill.antt =====
-- crates/nightfrost/src/backfill.rs: the migrations of an index that an older version wrote.
pub mod Cached
pub mod ContractEvents
pub mod ContractStates
pub mod Steps
pub mod Migrated
pub mod Blobs
pub mod CutOver
