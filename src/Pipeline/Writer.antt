-- ===== src/Pipeline/Writer.antt =====
-- `write_block` of crates/nightfrost-chain/src/pipeline.rs: all entities derived from one block, in
-- one batch. `Defs` has its state and small steps, the modules named for entities the steps of
-- one transaction, `Commit` the whole.
pub mod Defs
pub mod Utxos
pub mod Actions
pub mod Events
pub mod Registrations
pub mod Balances
pub mod Transactions
pub mod Window
pub mod Commit
pub mod Steps
pub mod Ids
pub mod Frames
pub mod TxRecords
pub mod BlockRun
pub mod Tip
pub mod Deltas
pub mod BalanceWrites
pub mod Tallies
pub mod Conservation
pub mod RegistrationWrites
pub mod ActionFrames
