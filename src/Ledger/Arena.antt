-- ===== src/Ledger/Arena.antt =====
-- crates/nightfrost-core/src/ledger_db.rs: the arena of the ledger state, a store of nodes by
-- hash and of the roots' reference counts, in two partitions of the index store.
pub mod Operations
pub mod Refinement
pub mod Scan
pub mod Roots
