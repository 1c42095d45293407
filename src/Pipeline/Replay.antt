-- ===== src/Pipeline/Replay.antt =====
-- The replay of a block on the ledger state: `apply_transaction` and `index_block` of
-- crates/nightfrost-chain/src/pipeline.rs.
pub mod Facade
pub mod Apply
pub mod Index
pub mod Derived
pub mod Guard
