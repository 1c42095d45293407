-- ===== src/Pipeline/Replay/Apply.antt =====
-- `apply_transaction` of crates/nightfrost-chain/src/pipeline.rs.
use nightfrost.Prelude.{
  ℕ, ◌+◌, ◌%◌, ◌^◌, Bool, true, false, Option, none, some, List, [], ◌∷◌, map, Result, ok, err,
  ◌>>=◌, if◌then◌else◌,
}
use nightfrost.Bytes.{Bytes}
use nightfrost.Domain.{
  ContractBalance, TransactionVariant, TransactionResult, ApplyRegularTransactionOutcome,
}
use nightfrost.Domain.Version.{LedgerVersion, ledger_version, to_u32}
use nightfrost.Store.Error.{LedgerError, Error, malformed_transaction, other_ledger_error}
use nightfrost.Store.Records.{ContractActionRecord}
use nightfrost.Pipeline.Chain.{
  Block, Transaction, regular, system, RegularTransaction, ContractAction,
}
use nightfrost.Pipeline.Writer.Defs.{AppliedTransaction}
use nightfrost.Pipeline.Replay.Facade.{Facade, in_context}

abbrev pub mempool_tblock_bump_millis : ℕ
mempool_tblock_bump_millis = 12000

-- u64 `+` of a release build
unfoldable pub well_formed_timestamp : Block → ℕ → Bool → ℕ
well_formed_timestamp block parent_time bump_tblock =
    if bump_tblock then (parent_time + mempool_tblock_bump_millis) % 2 ^ 64 else block.timestamp

module _ (L : Facade) where
  -- The retry at the block's own time: a transaction that is malformed at the bumped time.
  unfoldable pub retry :
      Result LedgerError (L.State × ApplyRegularTransactionOutcome)
      → Bool
      → Result LedgerError (L.State × ApplyRegularTransactionOutcome)
      → Result LedgerError (L.State × ApplyRegularTransactionOutcome)
  retry (ok outcome) bump_tblock again = ok outcome
  retry (err (malformed_transaction message)) true again = again
  retry (err (malformed_transaction message)) false again = err (malformed_transaction message)
  retry (err (other_ledger_error message)) bump_tblock again = err (other_ledger_error message)

  unfoldable pub apply_regular :
      L.State
      → RegularTransaction
      → Block
      → ℕ
      → Bool
      → Result LedgerError (L.State × ApplyRegularTransactionOutcome)
  unfolding well_formed_timestamp retry
  apply_regular state tx block parent_time bump_tblock =
      retry
        (L.apply_regular_transaction state tx.raw block.parent_hash block.timestamp parent_time
          (well_formed_timestamp block parent_time bump_tblock))
        bump_tblock
        (L.apply_regular_transaction state tx.raw block.parent_hash block.timestamp parent_time
          block.timestamp)

  -- A state that does not decode has no balances.
  unfoldable pub balances_of : Bytes → LedgerVersion → List ContractBalance
  balances_of [] version = []
  balances_of (b ∷ state) version = elim (L.contract_balances (b ∷ state) version) [
    | ok balances ↦ balances
    | err e ↦ []
  ]

  -- An empty state means that the action failed.
  unfoldable pub state_hash_of : Bytes → Option Bytes
  state_hash_of [] = none
  state_hash_of (b ∷ state) = some (L.sha256 (b ∷ state))

  unfoldable pub action_record :
      LedgerVersion → ℕ → ContractAction → Bytes × ContractActionRecord × Bytes
  unfolding balances_of state_hash_of
  action_record version height action = (
    action.address,
    record {
      address = action.address;
      attributes = action.attributes;
      state_hash = state_hash_of action.state;
      balances = balances_of action.state version;
      tx_id = 0;
      block_height = height;
    },
    action.state,
  )

  unfoldable pub apply_transaction :
      L.State → Transaction → Block → ℕ → Bool → Result Error (L.State × AppliedTransaction)
  apply_transaction state (regular tx) block parent_time bump_tblock = do
    (after, outcome) ← in_context (apply_regular state tx block parent_time bump_tblock)
    ok (
      after,
      record {
        hash = tx.hash;
        protocol_version = to_u32 block.protocol_version;
        zswap_start_index = L.zswap_first_free state;
        zswap_end_index = L.zswap_first_free after;
        variant = TransactionVariant.regular;
        result = outcome.transaction_result;
        fees = outcome.fees;
        identifiers = tx.identifiers;
        contract_actions =
            map (action_record (ledger_version tx.protocol_version) block.height)
              tx.contract_actions;
        created_utxos = outcome.created_unshielded_utxos;
        spent_utxos = outcome.spent_unshielded_utxos;
        ledger_events = outcome.ledger_events;
        raw = tx.raw;
      },
    )
  apply_transaction state (system tx) block parent_time bump_tblock = do
    (after, outcome) ← in_context (L.apply_system_transaction state tx.raw block.timestamp)
    ok (
      after,
      record {
        hash = tx.hash;
        protocol_version = to_u32 block.protocol_version;
        zswap_start_index = L.zswap_first_free state;
        zswap_end_index = L.zswap_first_free after;
        variant = TransactionVariant.system;
        result = TransactionResult.success;
        fees = 0;
        identifiers = [];
        contract_actions = [];
        created_utxos = outcome.created_unshielded_utxos;
        spent_utxos = [];
        ledger_events = outcome.ledger_events;
        raw = tx.raw;
      },
    )
