-- ===== src/Pipeline/Writer/BlockRun.antt =====
-- What a successful `write_block` went through, and what its steps after the transaction loop
-- leave alone.
use nightfrost.Prelude.{
  ℕ, ◌≡◌, ap, sym, ◌∙◌, List, arith, length, ok, >>=-eq-ok, ok-injective, subst,
}
use nightfrost.Bytes.{Bytes, to_be}
use nightfrost.Domain.{DustRegistrationEvent}
use nightfrost.Domain.Version.{ledger_version}
use nightfrost.Store.Fjall.{
  Fjall, Partition, Batch, tag, meta, blocks, blocks_by_hash, txs, balances, addr_txs,
  cnight_registrations,
}
use nightfrost.Store.Keys.{balance_key}
use nightfrost.Pipeline.Writer.Utxos.{i128_add}
use nightfrost.Store.Records.{Postcard, LedgerStateWindow, to_stored}
use nightfrost.Pipeline.Chain.{Block}
use nightfrost.Pipeline.Writer.Defs.{
  Writer, Counters, AppliedTransaction, new_writer, fold, fold_ok, fold_keeps, fold_ok_keeps,
}
use nightfrost.Pipeline.Writer.Balances.{
  current_balance, u128_of_i128, write_balance, write_history,
}
use nightfrost.Pipeline.Writer.Registrations.{
  apply_registration_event, event_key, find_registration, update_registration,
}
use nightfrost.Pipeline.Writer.Transactions.{write_transaction}
use nightfrost.Pipeline.Writer.Window.{next_window}
use nightfrost.Pipeline.Writer.Commit.{
  write_block_record, meta_entries, insert_meta, block_batch, write_block,
}
use nightfrost.Pipeline.Writer.Frames.{Apart, Quiet, Quiet-refl, Quiet-trans, Quiet-insert}

module _ (P : Postcard) (F : Fjall) (s : F.Keyspace) where
  -- The values between the steps, with the equations that tie them.
  pub record BlockRun (block : Block) (transactions : List AppliedTransaction) (ids : Counters)
      : Type 0 where
    pub written : Writer
    pub count : ℕ
    pub balanced : Batch
    pub registered : Batch
    pub writing :
        fold_ok (write_transaction P F s block.height) (new_writer ids, 0) transactions
        ≡ ok (written, count)
    pub balancing : fold_ok (write_balance F s) written.batch written.balance_deltas ≡ ok balanced
    pub registering :
        fold_ok
          (apply_registration_event P F s block.height)
          (fold write_history balanced written.touched_addresses)
          block.dust_registration_events
        ≡ ok registered

  module _ {block : Block} {transactions : List AppliedTransaction} {ids : Counters} where
    abbrev pub recorded : BlockRun block transactions ids → Batch
    recorded r = write_block_record P r.registered block ids.next_tx_id (length transactions)

    abbrev pub final_batch : BlockRun block transactions ids → Bytes → LedgerStateWindow → Batch
    final_batch r key window = fold insert_meta (recorded r) (
        meta_entries P block r.written.ids
          (next_window window key (to_stored (ledger_version block.protocol_version))))

  pub write_block-BlockRun :
      (block : Block) (transactions : List AppliedTransaction) (key : Bytes)
      (window : LedgerStateWindow) (ids ids' : Counters) (s' : F.Keyspace)
      → write_block P F s block transactions key window ids ≡ ok (s', ids')
      → (r : BlockRun block transactions ids) × (s' ≡ F.commit s (final_batch r key window))
        × (ids' ≡ r.written.ids)
  unfolding write_block block_batch
  write_block-BlockRun block transactions key window ids ids' s' h =
      let (made, whole, h1) = >>=-eq-ok (block_batch P F s block transactions key window ids) _ h in
      let (w, writing, h2) = >>=-eq-ok (fold_ok _ _ transactions) _ whole in
      let (balanced, balancing, h3) = >>=-eq-ok (fold_ok _ _ w.0.balance_deltas) _ h2 in
      let (registered, registering, h4) =
        >>=-eq-ok (fold_ok _ _ block.dust_registration_events) _ h3 in
      let e = ok-injective h4 in
      let d = ok-injective h1 in
      (
        record {
          written = w.0;
          count = w.1;
          balanced = balanced;
          registered = registered;
          writing = writing;
          balancing = balancing;
          registering = registering;
        },
        sym (ap (λ x. x.0) d) ∙ ap (λ x. F.commit s x.0) (sym e),
        sym (ap (λ x. x.1) d) ∙ ap (λ x. x.1) (sym e),
      )

-- `q` is none of the partitions that the steps after the transaction loop write.
pub record OfTransactions (q : Partition) : Type 0 where
  pub from_balances : Apart q balances
  pub from_addr_txs : Apart q addr_txs
  pub from_registrations : Apart q cnight_registrations
  pub from_blocks : Apart q blocks
  pub from_blocks_by_hash : Apart q blocks_by_hash
  pub from_meta : Apart q meta

pub txs-OfTransactions : OfTransactions txs
unfolding tag
txs-OfTransactions = ground arith

module _ {q : Partition} where
  write_balance-Quiet :
      (F : Fjall) (s : F.Keyspace) (b x y : Batch) (d : (Bytes × Bytes) × ℕ)
      → Apart q balances
      → write_balance F s x d ≡ ok y
      → Quiet q b x
      → Quiet q b y
  unfolding write_balance
  write_balance-Quiet F s b x y ((owner, token_type), delta) apart step k =
      let (current, _, h1) =
        >>=-eq-ok (current_balance F s (balance_key owner token_type)) _ step in
      let (updated, _, h2) = >>=-eq-ok (u128_of_i128 (i128_add current delta)) _ h1 in
      subst (Quiet q b) (ok-injective h2)
        (Quiet-insert balances (balance_key owner token_type) (to_be 16 updated) apart k)

  pub write_balances-Quiet :
      (F : Fjall) (s : F.Keyspace) (b c : Batch) (deltas : List ((Bytes × Bytes) × ℕ))
      → Apart q balances
      → fold_ok (write_balance F s) b deltas ≡ ok c
      → Quiet q b c
  write_balances-Quiet F s b c deltas apart h =
      fold_ok_keeps (Quiet q b) (write_balance F s)
        (λ x y d step k. write_balance-Quiet F s b x y d apart step k) b c deltas h Quiet-refl

  pub write_histories-Quiet :
      (b : Batch) (touched : List (Bytes × List ℕ))
      → Apart q addr_txs
      → Quiet q b (fold write_history b touched)
  unfolding write_history
  write_histories-Quiet b touched apart =
      fold_keeps (Quiet q b) write_history
        (λ c h k. fold_keeps (Quiet q b) _ (λ d i l. Quiet-insert _ _ _ apart l) c h.1 k) b touched
        Quiet-refl

  pub registrations-Quiet :
      (P : Postcard) (F : Fjall) (s : F.Keyspace) (height : ℕ) (b c : Batch)
      (events : List DustRegistrationEvent)
      → Apart q cnight_registrations
      → fold_ok (apply_registration_event P F s height) b events ≡ ok c
      → Quiet q b c
  unfolding apply_registration_event
  registrations-Quiet P F s height b c events apart h =
      fold_ok_keeps (Quiet q b) (apply_registration_event P F s height)
        (λ x y e step k.
          let (found, _, h1) = >>=-eq-ok (find_registration P F s height e) _ step in
          subst (Quiet q b) (ok-injective h1) (
            Quiet-insert cnight_registrations (event_key e)
              (P.registration.encode (update_registration e height found)) apart k))
        b c events h Quiet-refl

  pub insert_metas-Quiet :
      (b : Batch) (entries : List (Bytes × Bytes))
      → Apart q meta
      → Quiet q b (fold insert_meta b entries)
  insert_metas-Quiet b entries apart =
      fold_keeps (Quiet q b) insert_meta (λ c e k. Quiet-insert _ _ _ apart k) b entries Quiet-refl

module _ {P : Postcard} {F : Fjall} {s : F.Keyspace} where
  module _ {b : Block} {xs : List AppliedTransaction} {ids : Counters} {q : Partition} where
    -- Partitions that only the transaction loop writes are settled when it ends.
    pub final-Quiet :
        OfTransactions q
        → (r : BlockRun P F s b xs ids) (key : Bytes) (window : LedgerStateWindow)
        → Quiet q r.written.batch (final_batch P F s r key window)
    unfolding write_block_record
    final-Quiet o r key window =
        Quiet-trans
          (write_balances-Quiet F s _ r.balanced r.written.balance_deltas o.from_balances
            r.balancing)
          (Quiet-trans
            (write_histories-Quiet r.balanced r.written.touched_addresses o.from_addr_txs)
            (Quiet-trans
              (registrations-Quiet P F s b.height _ r.registered b.dust_registration_events
                o.from_registrations r.registering)
              (Quiet-trans
                (Quiet-insert _ _ _ o.from_blocks_by_hash
                  (Quiet-insert _ _ _ o.from_blocks Quiet-refl))
                (insert_metas-Quiet (recorded P F s r) _ o.from_meta))))
