-- ===== src/Checks/Writing.antt =====
-- The theorems on `write_block`, at the sample block.
use nightfrost.Prelude.{ℕ, ◌^◌, ◌+◌, ◌<◌, ◌≡◌, refl, some, [], ◌∷◌, arith, take, ok}
use nightfrost.Prelude.Keyed
use nightfrost.Bytes.{to_be, read_be, from_be_acc, bytes_eq}
use nightfrost.Domain.Version.{ledger_version, to_u32}
use nightfrost.Store.Fjall.{function_fjall, tag, same_key, apply_write, latest}
use nightfrost.Store.Keys.{utxo_key, unspent_key, balance_key, prefixed_u64_key}
use nightfrost.Store.Records.{to_stored, StoredLedgerVersion}
use nightfrost.Pipeline.Counters.{load}
use nightfrost.Store.Reads.{
  decoded, tx, last_indexed_height, tip_timestamp, block, block_height_by_hash, ledger_state_window,
}
use nightfrost.Pipeline.Writer.Defs.{bump, new_writer, batch_insert, batch_remove, fold, fold_ok}
use nightfrost.Pipeline.Writer.Utxos.{
  i128_add, i128_sub, delta_of, touch, create_utxo, find_utxo, mark_spent, spend_utxo,
}
use nightfrost.Pipeline.Writer.Balances.{
  u128_of_i128, current_balance, write_balance, write_history,
}
use nightfrost.Pipeline.Writer.Events.{actions_with_ids}
use nightfrost.Pipeline.Writer.Transactions.{begin_transaction, event_count, write_transaction}
use nightfrost.Pipeline.Writer.TxRecords.{total_events, total_actions, expected_tx}
use nightfrost.Pipeline.Writer.BalanceWrites.{key_of}
use nightfrost.Pipeline.Writer.Deltas.{Account, created_value, spent_value, value_of}
use nightfrost.Pipeline.Writer.Window.{evict, next_window}
use nightfrost.Pipeline.Writer.Commit.{
  meta_entries, block_record, write_block_record, block_batch, write_block,
}
use nightfrost.Pipeline.Writer.Tip.{
  tip_after_write, window_after_write, load_after_write, tx_after_write,
}
use nightfrost.Pipeline.Writer.Conservation.{balances_conserved}
use nightfrost.Pipeline.Chain.{block_ref}
use nightfrost.Pipeline.Startup.{resume_from, seed_timestamp, resume_after_write}
use nightfrost.Checks.Postcards.{cells}
use nightfrost.Checks.Sample.{
  thirty_two, sample_transactions, sample_block, sample_transaction, empty_store, no_ids,
  store_after, ids_after, sample_utxo,
}

is_written :
    write_block cells function_fjall empty_store sample_block sample_transactions [] [] no_ids
    ≡ ok (store_after, ids_after)
unfolding Keyed.lookup Keyed.insert to_be read_be from_be_acc bytes_eq ledger_version to_u32 tag
    same_key apply_write latest utxo_key unspent_key balance_key prefixed_u64_key to_stored decoded
    bump new_writer batch_insert batch_remove fold fold_ok i128_add i128_sub delta_of touch
    create_utxo find_utxo mark_spent spend_utxo u128_of_i128 current_balance write_balance
    write_history actions_with_ids begin_transaction event_count write_transaction evict next_window
    meta_entries write_block_record block_batch write_block
is_written = refl

tip_after_write_example :
    (last_indexed_height function_fjall cells store_after ≡ ok (some 0))
    × (tip_timestamp function_fjall cells store_after ≡ ok (some 1700000000))
    × (block function_fjall cells store_after 0 ≡ ok (some (block_record sample_block 0 2)))
    × (block_height_by_hash function_fjall cells store_after (thirty_two 12) ≡ ok (some 0))
tip_after_write_example =
    tip_after_write cells function_fjall empty_store store_after sample_block sample_transactions []
      [] no_ids ids_after is_written (omega arith) (omega arith)

window_after_write_example :
    ledger_state_window function_fjall cells store_after ≡ ok (([], StoredLedgerVersion.v8) ∷ [])
unfolding evict next_window to_stored ledger_version
window_after_write_example =
    window_after_write cells function_fjall empty_store store_after sample_block sample_transactions
      [] [] no_ids ids_after is_written

load_after_write_example : load cells function_fjall store_after ≡ ok ids_after
load_after_write_example =
    load_after_write cells function_fjall empty_store store_after sample_block sample_transactions
      [] [] no_ids ids_after is_written (omega arith) (omega arith) (omega arith)

few_events : 0 + total_events sample_transactions < 2 ^ 64
unfolding total_events
few_events = omega arith

few_actions : 0 + total_actions sample_transactions < 2 ^ 64
unfolding total_actions
few_actions = omega arith

tx_after_write_example :
    tx function_fjall cells store_after 1
    ≡ ok (
        some (
          expected_tx 0 1
            (0 + total_actions (take 1 sample_transactions))
            (0 + total_events (take 1 sample_transactions))
            (sample_transaction 4 [] (sample_utxo 1 3 ∷ []))))
tx_after_write_example =
    tx_after_write cells function_fjall empty_store store_after sample_block sample_transactions []
      [] no_ids ids_after is_written 1 (sample_transaction 4 [] (sample_utxo 1 3 ∷ [])) refl
      (omega arith) (omega arith) (omega arith) few_actions few_events

abbrev sample_account : Account
sample_account = (thirty_two 7, thirty_two 0)

no_balance : current_balance function_fjall empty_store (key_of sample_account) ≡ ok 0
unfolding current_balance decoded
no_balance = refl

created_eight : created_value sample_account sample_transactions ≡ 8
unfolding created_value value_of bytes_eq
created_eight = refl

spent_three : spent_value sample_account sample_transactions ≡ 3
unfolding spent_value value_of bytes_eq
spent_three = refl

balances_conserved_example :
    (new : ℕ) × (current_balance function_fjall store_after (key_of sample_account) ≡ ok new)
    × (new + spent_value sample_account sample_transactions
        ≡ 0 + created_value sample_account sample_transactions)
balances_conserved_example =
    balances_conserved cells function_fjall empty_store store_after sample_block sample_transactions
      [] [] no_ids ids_after is_written sample_account 0
      ((((refl, refl), ((refl, refl), tt)), tt), ((tt, ((refl, refl), tt)), tt)) (refl, refl)
      no_balance (omega arith) (omega (arith, created_eight)) (omega (arith, spent_three))

resume_after_write_example :
    (resume_from cells function_fjall store_after ≡ ok (some (block_ref sample_block)))
    × (seed_timestamp cells function_fjall store_after ≡ ok 1700000000)
resume_after_write_example =
    resume_after_write cells function_fjall empty_store store_after sample_block sample_transactions
      [] [] no_ids ids_after is_written (omega arith) (omega arith)
