-- ===== src/Pipeline/Replay/Facade.antt =====
-- The ledger state as the pipeline uses it: `LedgerState` and `ContractState` of
-- crates/nightfrost-core/src/domain/ledger.rs, which wrap the midnight-ledger crates, and SHA-256.
use nightfrost.Prelude.{ℕ, List, Result}
use nightfrost.Bytes.{Bytes}
use nightfrost.Domain.{
  ContractBalance, ApplyRegularTransactionOutcome, ApplySystemTransactionOutcome,
}
use nightfrost.Domain.Version.{LedgerVersion}
use nightfrost.Store.Error.{LedgerError, Error, ledger}

-- For one network. A method that fails leaves the state as it was.
pub record Facade : Type 1 where
  pub State : Type 0
  pub new : LedgerVersion → Result LedgerError State
  pub from_genesis : Bytes → LedgerVersion → Result LedgerError State
  pub translate : State → LedgerVersion → Result LedgerError State
  pub root : State → Result LedgerError Bytes
  pub zswap_merkle_tree_root : State → Bytes
  pub zswap_first_free : State → ℕ
  -- The raw transaction, the parent's hash, the block's time, the parent block's time and the time
  -- at which the transaction must be well formed.
  pub apply_regular_transaction :
      State
      → Bytes
      → Bytes
      → ℕ
      → ℕ
      → ℕ
      → Result LedgerError (State × ApplyRegularTransactionOutcome)
  pub apply_system_transaction :
      State → Bytes → ℕ → Result LedgerError (State × ApplySystemTransactionOutcome)
  pub finalize_apply_transactions : State → ℕ → Result LedgerError State
  pub persist : State → Result LedgerError (State × Bytes)
  pub contract_balances : Bytes → LedgerVersion → Result LedgerError (List ContractBalance)
  pub sha256 : Bytes → Bytes

-- `.context(…)?`
abbrev pub in_context {ℓ} : {A : Type ℓ} → Result LedgerError A → Result Error A
in_context (Result.ok a) = Result.ok a
in_context (Result.err e) = Result.err (ledger e)
