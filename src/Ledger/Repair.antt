-- ===== src/Ledger/Repair.antt =====
-- The repair of the root counts of the retention window, `repair_root_counts` of
-- crates/nightfrost-core/src/domain/ledger/ledger_state.rs.
pub mod Walk
pub mod Complete
pub mod Enough
pub mod Raise
pub mod Raised
pub mod Window
