-- ===== src/Pipeline/Writer/Commit.antt =====
-- The rest of `write_block` of crates/nightfrost-chain/src/pipeline.rs: the block's own record, the
-- meta entries and the commit.
use nightfrost.Prelude.{ℕ, ◌%◌, ◌^◌, List, [], ◌∷◌, ◌==◌, if◌then◌else◌, length, Result, ok, ◌>>=◌}
use nightfrost.Bytes.{Bytes}
use nightfrost.Domain.Version.{ledger_version, to_u32}
use nightfrost.Store.Error.{Error}
use nightfrost.Store.Fjall.{Fjall, Batch, meta, blocks, blocks_by_hash}
use nightfrost.Store.Keys.{u64_key}
use nightfrost.Store.Records.{
  Postcard, BlockRecord, LedgerStateWindow, to_stored, last_height_key, tip_timestamp_key,
  genesis_hash_key, next_tx_id_key, next_action_id_key, next_event_id_key, ledger_state_window_key,
  wallet_tx_indexed_through_key, wallet_dust_indexed_through_key,
}
use nightfrost.Pipeline.Chain.{Block}
use nightfrost.Pipeline.Writer.Defs.{
  Counters, AppliedTransaction, new_writer, batch_insert, fold, fold_ok,
}
use nightfrost.Pipeline.Writer.Balances.{write_balance, write_history}
use nightfrost.Pipeline.Writer.Registrations.{apply_registration_event}
use nightfrost.Pipeline.Writer.Transactions.{write_transaction}
use nightfrost.Pipeline.Writer.Window.{next_window}

abbrev pub block_record : Block → ℕ → ℕ → BlockRecord
block_record block first_tx_id count = record {
  hash = block.hash;
  parent_hash = block.parent_hash;
  timestamp = block.timestamp;
  protocol_version = to_u32 block.protocol_version;
  author = block.author;
  first_tx_id = first_tx_id;
  tx_count = count % 2 ^ 32;
  zswap_merkle_tree_root = block.zswap_merkle_tree_root;
  ledger_state_root = block.ledger_state_root;
}

-- Cursor, counters and the window with the new key; the genesis hash with block 0.
unfoldable pub meta_entries : Postcard → Block → Counters → LedgerStateWindow → List (Bytes × Bytes)
meta_entries P block ids window =
    (last_height_key, u64_key block.height)
    ∷ (tip_timestamp_key, u64_key block.timestamp)
    ∷ (next_tx_id_key, u64_key ids.next_tx_id)
    ∷ (next_action_id_key, u64_key ids.next_action_id)
    ∷ (next_event_id_key, u64_key ids.next_event_id)
    ∷ (wallet_tx_indexed_through_key, u64_key ids.next_tx_id)
    ∷ (wallet_dust_indexed_through_key, u64_key ids.next_event_id)
    ∷ (ledger_state_window_key, P.window.encode window)
    ∷ (if block.height == 0 then (genesis_hash_key, block.hash) ∷ [] else [])

abbrev pub insert_meta : Batch → Bytes × Bytes → Batch
insert_meta batch (key, value) = batch_insert batch meta key value

unfoldable pub write_block_record : Postcard → Batch → Block → ℕ → ℕ → Batch
write_block_record P batch block first_tx_id count =
    batch_insert
      (batch_insert batch blocks (u64_key block.height)
        (P.block.encode (block_record block first_tx_id count)))
      blocks_by_hash block.hash (u64_key block.height)

module _ (P : Postcard) (F : Fjall) (s : F.Keyspace) where
  -- The batch of a block, and the counters after it.
  unfoldable pub block_batch :
      Block
      → List AppliedTransaction
      → Bytes
      → LedgerStateWindow
      → Counters
      → Result Error (Batch × Counters)
  block_batch block transactions ledger_state_key window ids = do
    (w, count) ← fold_ok (write_transaction P F s block.height) (new_writer ids, 0) transactions
    balanced ← fold_ok (write_balance F s) w.batch w.balance_deltas
    let told = fold write_history balanced w.touched_addresses
    registered ←
        fold_ok (apply_registration_event P F s block.height) told block.dust_registration_events
    let recorded = write_block_record P registered block ids.next_tx_id (length transactions)
    let version = to_stored (ledger_version block.protocol_version)
    let entries = meta_entries P block w.ids (next_window window ledger_state_key version)
    ok (fold insert_meta recorded entries, w.ids)

  unfoldable pub write_block :
      Block
      → List AppliedTransaction
      → Bytes
      → LedgerStateWindow
      → Counters
      → Result Error (F.Keyspace × Counters)
  write_block block transactions ledger_state_key window ids = do
    (batch, ids') ← block_batch block transactions ledger_state_key window ids
    ok (F.commit s batch, ids')
