-- ===== src/Ledger.antt =====
-- crates/nightfrost-core/src/domain/ledger: the parts of the ledger facade that are its own logic,
-- apart from the midnight-ledger crates that it wraps.
pub mod ContractLog
pub mod Arena
pub mod Repair
pub mod State
