-- ===== src/Pipeline/Writer/Tip.antt =====
-- What a reader, and a restarted pipeline, find in the store once a block's batch is committed.
use native.Mathlib.Nat.{zero-add}
use nightfrost.Prelude.{
  ℕ, ◌+◌, ◌^◌, ◌<◌, ◌≡◌, refl, ap, sym, ◌∙◌, Option, some, List, [], ◌∷◌, arith, length, get_elem?,
  take, ok, if◌then◌else◌,
}
use nightfrost.Bytes.{Bytes, bytes_eq, bytes_eq_refl, read_be}
use nightfrost.Bytes.BigEndian.{read_be-to_be}
use nightfrost.Domain.Version.{ledger_version}
use nightfrost.Store.Fjall.{
  Fjall, Partition, Batch, tag, latest, same_key, meta, blocks, blocks_by_hash, txs,
}
use nightfrost.Store.Keys.{IsU64, u64_key}
use nightfrost.Store.Reads.{
  meta_u64, last_indexed_height, tip_timestamp, next_id, ledger_state_window, block,
  block_height_by_hash, tx, decoded-some,
}
use nightfrost.Store.Records.{
  Postcard, LedgerStateWindow, to_stored, last_height_key, tip_timestamp_key, next_tx_id_key,
  next_action_id_key, next_event_id_key, ledger_state_window_key,
}
use nightfrost.Pipeline.Chain.{Block}
use nightfrost.Pipeline.Counters.{load}
use nightfrost.Pipeline.Writer.Defs.{
  Counters, AppliedTransaction, latest-batch_insert, fold, new_writer,
}
use nightfrost.Pipeline.Writer.Window.{next_window}
use nightfrost.Pipeline.Writer.Commit.{
  write_block_record, block_record, meta_entries, insert_meta, write_block,
}
use nightfrost.Pipeline.Writer.BlockRun.{
  BlockRun, recorded, final_batch, write_block-BlockRun, insert_metas-Quiet, txs-OfTransactions,
  final-Quiet,
}
use nightfrost.Pipeline.Writer.TxRecords.{
  total_events, total_actions, events_through, IsRecorded, expected_tx, tx_record-expected,
  move_record, txs-IsRecorded,
}

-- The value that the last entry of a key gives it.
entry_value : Bytes → Option Bytes → List (Bytes × Bytes) → Option Bytes
entry_value k old [] = old
entry_value k old ((j, v) ∷ entries) = entry_value k (if bytes_eq k j then some v else old) entries

latest-metas :
    (k : Bytes) (old : Option Bytes) (b : Batch) (entries : List (Bytes × Bytes))
    → latest meta k old (fold insert_meta b entries) ≡ entry_value k (latest meta k old b) entries
unfolding fold entry_value
latest-metas k old b [] = refl
latest-metas k old b ((j, v) ∷ entries) =
    latest-metas k old (insert_meta b (j, v)) entries
    ∙ ap (λ o. entry_value k o entries)
        (unfold same_key tag in latest-batch_insert meta k old b meta j v)

-- What the entries of a block say of each key.
module _ (P : Postcard) (block : Block) (ids : Counters) (window : LedgerStateWindow) where
  entries_last_height :
      (old : Option Bytes)
      → entry_value last_height_key old (meta_entries P block ids window)
        ≡ some (u64_key block.height)
  unfolding entry_value meta_entries bytes_eq
  entries_last_height old = ground arith

  entries_tip_timestamp :
      (old : Option Bytes)
      → entry_value tip_timestamp_key old (meta_entries P block ids window)
        ≡ some (u64_key block.timestamp)
  unfolding entry_value meta_entries bytes_eq
  entries_tip_timestamp old = ground arith

  entries_next_tx_id :
      (old : Option Bytes)
      → entry_value next_tx_id_key old (meta_entries P block ids window)
        ≡ some (u64_key ids.next_tx_id)
  unfolding entry_value meta_entries bytes_eq
  entries_next_tx_id old = ground arith

  entries_next_action_id :
      (old : Option Bytes)
      → entry_value next_action_id_key old (meta_entries P block ids window)
        ≡ some (u64_key ids.next_action_id)
  unfolding entry_value meta_entries bytes_eq
  entries_next_action_id old = ground arith

  entries_next_event_id :
      (old : Option Bytes)
      → entry_value next_event_id_key old (meta_entries P block ids window)
        ≡ some (u64_key ids.next_event_id)
  unfolding entry_value meta_entries bytes_eq
  entries_next_event_id old = ground arith

  entries_window :
      (old : Option Bytes)
      → entry_value ledger_state_window_key old (meta_entries P block ids window)
        ≡ some (P.window.encode window)
  unfolding entry_value meta_entries bytes_eq
  entries_window old = ground arith

module _ (P : Postcard) (F : Fjall) (s s' : F.Keyspace) (b : Block) (xs : List AppliedTransaction)
    (key : Bytes) (window : LedgerStateWindow) (ids ids' : Counters)
    (written : write_block P F s b xs key window ids ≡ ok (s', ids')) where
  abbrev window' : LedgerStateWindow
  window' = next_window window key (to_stored (ledger_version b.protocol_version))

  -- A partition's key in the new keyspace is what the final batch leaves there.
  get_after :
      (p : Partition) (k : Bytes)
      → (r : BlockRun P F s b xs ids) × (F.get s' p k
          ≡ latest p k (F.get s p k) (final_batch P F s r key window))
        × (ids' ≡ r.written.ids)
  get_after p k =
      let (r, e, i) = write_block-BlockRun P F s b xs key window ids ids' s' written in
      (r, ap (λ t. F.get t p k) e ∙ F.get-commit s (final_batch P F s r key window) p k, i)

  -- A meta key has the value that the block's entries give it.
  meta_after :
      (k v : Bytes)
      → ((w : Counters) (old : Option Bytes)
          → entry_value k old (meta_entries P b w window') ≡ some v)
      → F.get s' meta k ≡ some v
  meta_after k v given =
      let (r, e, _) = get_after meta k in
      e
      ∙ latest-metas k (F.get s meta k) (recorded P F s r) (meta_entries P b r.written.ids window')
      ∙ given r.written.ids _

  counter_after :
      (k : Bytes) (field : Counters → ℕ)
      → ((w : Counters) (old : Option Bytes)
          → entry_value k old (meta_entries P b w window') ≡ some (u64_key (field w)))
      → IsU64 (field ids')
      → next_id F P s' k ≡ ok (field ids')
  unfolding next_id
  counter_after k field given small =
      let (r, e, i) = get_after meta k in
      let there : F.get s' meta k ≡ some (u64_key (field ids')) =
        e
        ∙ latest-metas k (F.get s meta k) (recorded P F s r)
            (meta_entries P b r.written.ids window')
        ∙ given r.written.ids _
        ∙ ap (λ c. some (u64_key (field c))) (sym i) in
      rw (
        decoded-some (read_be 8) (F.get s' meta k) there (read_be-to_be 8 (field ids') small),
        meta_u64,
      )

  -- The block's own record and its hash entry, behind which only meta keys are written.
  record_after :
      F.get s' blocks (u64_key b.height)
      ≡ some (P.block.encode (block_record b ids.next_tx_id (length xs)))
  unfolding write_block_record same_key tag
  record_after =
      let (r, e, _) = get_after blocks (u64_key b.height) in
      e
      ∙ (insert_metas-Quiet (recorded P F s r) _ refl).at (u64_key b.height) _
      ∙ latest-batch_insert blocks (u64_key b.height) _ _ blocks_by_hash b.hash _
      ∙ latest-batch_insert blocks (u64_key b.height) _ r.registered blocks (u64_key b.height) _
      ∙ rw (bytes_eq_refl (u64_key b.height))

  hash_after : F.get s' blocks_by_hash b.hash ≡ some (u64_key b.height)
  unfolding write_block_record same_key tag
  hash_after =
      let (r, e, _) = get_after blocks_by_hash b.hash in
      e
      ∙ (insert_metas-Quiet (recorded P F s r) _ refl).at b.hash _
      ∙ latest-batch_insert blocks_by_hash b.hash _ _ blocks_by_hash b.hash _
      ∙ rw (bytes_eq_refl b.hash)

  -- After a block is written, a reader finds its height as the indexed tip, its timestamp, its
  -- record under that height and its height under its hash. Heights and times are u64s.
  pub tip_after_write :
      IsU64 b.height
      → IsU64 b.timestamp
      → (last_indexed_height F P s' ≡ ok (some b.height))
        × (tip_timestamp F P s' ≡ ok (some b.timestamp))
        × (block F P s' b.height ≡ ok (some (block_record b ids.next_tx_id (length xs))))
        × (block_height_by_hash F P s' b.hash ≡ ok (some b.height))
  unfolding last_indexed_height tip_timestamp block block_height_by_hash
  tip_after_write hh ht = (
    decoded-some (read_be 8) _
        (meta_after last_height_key _ (λ w. entries_last_height P b w window'))
        (read_be-to_be 8 b.height hh),
    decoded-some (read_be 8) _
        (meta_after tip_timestamp_key _ (λ w. entries_tip_timestamp P b w window'))
        (read_be-to_be 8 b.timestamp ht),
    decoded-some P.block.decode _ record_after (P.block.decode-encode _),
    decoded-some (read_be 8) _ hash_after (read_be-to_be 8 b.height hh),
  )

  -- The stored window is the old one with the new ledger state's key, cut to the retention.
  pub window_after_write : ledger_state_window F P s' ≡ ok window'
  unfolding ledger_state_window
  window_after_write = rw (
      decoded-some P.window.decode _
        (meta_after ledger_state_window_key _ (λ w. entries_window P b w window'))
        (P.window.decode-encode window'))

  -- A restart loads the very counters that the pipeline held when the block was written.
  pub load_after_write :
      IsU64 ids'.next_tx_id
      → IsU64 ids'.next_action_id
      → IsU64 ids'.next_event_id
      → load P F s' ≡ ok ids'
  unfolding load
  load_after_write ht ha he = rw (
    counter_after next_tx_id_key (λ c. c.next_tx_id) (λ w. entries_next_tx_id P b w window') ht,
    counter_after next_action_id_key (λ c. c.next_action_id)
        (λ w. entries_next_action_id P b w window') ha,
    counter_after next_event_id_key (λ c. c.next_event_id)
        (λ w. entries_next_event_id P b w window') he,
  )

  -- The i-th transaction of a written block is found under the i-th id after the block's first,
  -- with its own data, its position in the block, consecutive ids for its actions and consecutive
  -- events, which begin behind those of the transactions before it, and the number of its events. Its
  -- position and that number are u32s, and the counters do not reach 2^64.
  pub tx_after_write :
      (i : ℕ) (a : AppliedTransaction)
      → get_elem? xs i ≡ some a
      → i < 2 ^ 32
      → length a.ledger_events < 2 ^ 32
      → ids.next_tx_id + length xs < 2 ^ 64
      → ids.next_action_id + total_actions xs < 2 ^ 64
      → ids.next_event_id + total_events xs < 2 ^ 64
      → tx F P s' (ids.next_tx_id + i)
        ≡ ok (
            some (
              expected_tx b.height i
                (ids.next_action_id + total_actions (take i xs))
                (ids.next_event_id + total_events (take i xs))
                a))
  unfolding tx new_writer
  tx_after_write i a at_i hi hl ht hc he =
      let (r, e, _) = get_after txs (u64_key (ids.next_tx_id + i)) in
      let old = F.get s txs (u64_key (ids.next_tx_id + i)) in
      let actions = ids.next_action_id + total_actions (take i xs) in
      let events = ids.next_event_id + total_events (take i xs) in
      let found : IsRecorded P F s b.height r.written.batch old i (ids.next_tx_id + i) actions
          events a =
        move_record P F s b.height r.written.batch old a (zero-add i) refl refl refl (
          txs-IsRecorded P F s b.height (new_writer ids) r.written 0 r.count i xs a old r.writing ht
            he hc at_i) in
      let stored =
        decoded-some P.tx.decode _
          (e ∙ (final-Quiet txs-OfTransactions r key window).at _ _ ∙ found)
          (P.tx.decode-encode _) in
      let room : events + length a.ledger_events < 2 ^ 64 =
        omega (arith, events_through i xs a at_i, he) in
      stored
      ∙ ap (λ x. ok (some x)) (tx_record-expected P F s b.height i actions events a hi hl room)
