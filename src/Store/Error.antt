-- ===== src/Store/Error.antt =====
-- The errors of the store and of the pipeline (`anyhow::Error` with its context, and the panics of
-- `expect`), one constructor for each place that raises one.
use nightfrost.Bytes.{Bytes}

-- `LedgerError`: what the ledger facade reports.
pub data LedgerError : Type 0 where
  malformed_transaction : Bytes → LedgerError
  other_ledger_error : Bytes → LedgerError

pub data Error : Type 0 where
  panicked different_chain last_block_missing no_loadable_ledger_state : Error
  ledger : LedgerError → Error
  genesis_without_ledger_state genesis_without_root : Error
  ledger_state_root_mismatch zswap_state_root_mismatch : Error
  spent_utxo_not_found balance_underflow : Error
  contract_event_without_address missing_tx missing_action missing_event missing_block : Error
  missing_preceding_index zswap_events_exceed zswap_index_mismatch : Error
  not_current_schema bad_action_id bad_event_id : Error
