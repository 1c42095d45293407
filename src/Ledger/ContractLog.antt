-- ===== src/Ledger/ContractLog.antt =====
-- The decoding of contract log items: `make_contract_event_attributes` of
-- crates/nightfrost-core/src/domain/ledger/ledger_state.rs and the functions below it.
pub mod Fields
pub mod Attributes
pub mod Wire
pub mod Slices
pub mod Readers
pub mod Sizes
pub mod RoundTrip
pub mod Truncated
