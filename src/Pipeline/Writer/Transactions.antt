-- ===== src/Pipeline/Writer/Transactions.antt =====
-- One round of the transaction loop of `write_block` in crates/nightfrost-chain/src/pipeline.rs.
use nightfrost.Prelude.{ℕ, ◌+◌, ◌-◌, ◌%◌, ◌^◌, List, [], ◌∷◌, ◌++◌, Result, ok, ◌>>=◌}
use nightfrost.Store.Error.{Error}
use nightfrost.Store.Fjall.{Fjall, wallet_tx_indices, txs, txs_by_hash, txs_by_identifier}
use nightfrost.Store.Keys.{u64_key, prefixed_u64_key}
use nightfrost.Store.Records.{Postcard, TxRecord, WalletTxIndexRecord}
use nightfrost.Pipeline.Writer.Defs.{Writer, AppliedTransaction, batch_insert, bump, fold, fold_ok}
use nightfrost.Pipeline.Writer.Utxos.{create_utxo, spend_utxo}
use nightfrost.Pipeline.Writer.Actions.{AppliedAction, write_action}
use nightfrost.Pipeline.Writer.Events.{actions_with_ids, write_event}

-- The transaction's id, its wallet index and its two lookup indexes.
unfoldable pub begin_transaction : Postcard → Writer → AppliedTransaction → Writer
begin_transaction P w applied =
    let tx_id = w.ids.next_tx_id in
    let index : WalletTxIndexRecord = record {
      zswap_start_index = applied.zswap_start_index;
      zswap_end_index = applied.zswap_end_index;
      protocol_version = applied.protocol_version;
    } in
    let indexed =
      batch_insert w.batch wallet_tx_indices (u64_key tx_id) (P.wallet_tx_index.encode index) in
    let by_hash = batch_insert indexed txs_by_hash (prefixed_u64_key applied.hash tx_id) [] in
    record w {
      ids = record (w.ids) { next_tx_id = bump tx_id };
      batch =
          fold (λ b i. batch_insert b txs_by_identifier (prefixed_u64_key i tx_id) []) by_hash
            applied.identifiers;
    }

-- `(next - first) as u32`
unfoldable pub event_count : ℕ → ℕ → ℕ
event_count first next = (next + (2 ^ 64 - first)) % 2 ^ 64 % 2 ^ 32

abbrev pub tx_record : ℕ → ℕ → AppliedTransaction → List ℕ → ℕ → ℕ → TxRecord
tx_record height index applied action_ids first_event_id next_event_id = record {
  hash = applied.hash;
  block_height = height;
  index_in_block = index % 2 ^ 32;
  variant = applied.variant;
  result = applied.result;
  paid_fees = applied.fees;
  estimated_fees = applied.fees;
  identifiers = applied.identifiers;
  contract_action_ids = action_ids;
  first_event_id = first_event_id;
  event_count = event_count first_event_id next_event_id;
  created_utxos = applied.created_utxos;
  spent_utxos = applied.spent_utxos;
  raw = applied.raw;
}

module _ (P : Postcard) (F : Fjall) (s : F.Keyspace) where
  -- The action loop, which also collects the actions' ids.
  unfoldable pub write_action_id :
      ℕ → Writer × List ℕ → AppliedAction → Result Error (Writer × List ℕ)
  write_action_id tx_id (w, action_ids) action = do
    w' ← write_action P F s tx_id w action
    ok (w', action_ids ++ w.ids.next_action_id ∷ [])

  unfoldable pub write_transaction : ℕ → Writer × ℕ → AppliedTransaction → Result Error (Writer × ℕ)
  write_transaction height (w, index) applied = do
    let tx_id = w.ids.next_tx_id
    let first_event_id = w.ids.next_event_id
    let begun = begin_transaction P w applied
    let made = fold (create_utxo P tx_id) begun applied.created_utxos
    spent ← fold_ok (spend_utxo P tx_id F s) made applied.spent_utxos
    (acted, action_ids) ← fold_ok (write_action_id tx_id) (spent, []) applied.contract_actions
    let actions = actions_with_ids applied.contract_actions action_ids
    let told = fold (write_event P tx_id height actions) acted applied.ledger_events
    let done = tx_record height index applied action_ids first_event_id told.ids.next_event_id
    ok (
      record told { batch = batch_insert told.batch txs (u64_key tx_id) (P.tx.encode done) },
      index + 1,
    )
