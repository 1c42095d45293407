-- ===== src/Store.antt =====
-- crates/nightfrost-core/src/store.rs: the index store. `Fjall` is the interface to the key-value
-- store below it, `Records` the stored records, `Keys` the composite keys, `Reads` the lookups.
pub mod Error
pub mod Fjall
pub mod Records
pub mod Keys
pub mod Reads
pub mod Open
pub mod Ordered
