-- ===== src/Pipeline/Writer/Tallies.antt =====
-- The tally of a block's transaction loop, and where `write_block` of
-- crates/nightfrost-chain/src/pipeline.rs writes balances.
use nightfrost.Prelude.{
  ℕ, ◌+◌, ◌≡◌, refl, ap, ◌∙◌, List, [], ◌∷◌, arith, All, ok, >>=-eq-ok, ok-injective, subst,
}
use nightfrost.Prelude.Keyed.{pair_key}
use nightfrost.Bytes.{Bytes}
use nightfrost.Store.Fjall.{Fjall, tag, balances, blocks, blocks_by_hash, txs}
use nightfrost.Store.Records.{Postcard, LedgerStateWindow}
use nightfrost.Pipeline.Chain.{Block}
use nightfrost.Pipeline.Writer.Defs.{Writer, Counters, AppliedTransaction, bytes_key, fold_ok}
use nightfrost.Pipeline.Writer.Transactions.{begin_transaction, write_transaction}
use nightfrost.Pipeline.Writer.Commit.{write_block_record}
use nightfrost.Pipeline.Writer.Steps.{Round, ended, write_transaction-Round}
use nightfrost.Pipeline.Writer.Frames.{
  Apart, Quiet, Quiet-refl, Quiet-trans, Quiet-insert, balances-Elsewhere,
}
use nightfrost.Pipeline.Writer.BlockRun.{
  BlockRun, recorded, final_batch, write_histories-Quiet, registrations-Quiet, insert_metas-Quiet,
}
use nightfrost.Pipeline.Writer.TxRecords.{told-Quiet}
use nightfrost.Pipeline.Writer.Deltas.{
  Account, value_of, created_value, spent_value, HasAccounts, IsTally, Gained, create_utxos-Gained,
  create_utxos-IsTally, write_events-deltas, spend_utxos-Gained, spend_utxos-IsTally,
  write_actions-deltas,
}

-- All utxos of a block belong to accounts.
abbrev pub BlockHasAccounts : List AppliedTransaction → Type 0
BlockHasAccounts xs = All (λ a. HasAccounts a.created_utxos × HasAccounts a.spent_utxos) xs

balances-Apart_txs : Apart balances txs
unfolding tag
balances-Apart_txs = refl

module _ (P : Postcard) (F : Fjall) (s : F.Keyspace) where
  module _ {height : ℕ} {w : Writer} {index : ℕ} {a : AppliedTransaction} where
    -- The actions, the events and the transaction's record add no delta.
    ended-deltas :
        (r : Round P F s height w index a) → (ended P F s r).balance_deltas ≡ r.spent.balance_deltas
    ended-deltas r =
        write_events-deltas P w.ids.next_tx_id height _ r.acted a.ledger_events
        ∙ write_actions-deltas P F s w.ids.next_tx_id (r.spent, []) (r.acted, r.action_ids)
            a.contract_actions r.acting

    ended-Gained :
        (acc : Account) (r : Round P F s height w index a)
        → Gained acc w.balance_deltas
            (ended P F s r).balance_deltas
            (value_of acc a.created_utxos)
            (value_of acc a.spent_utxos)
    unfolding begin_transaction
    ended-Gained acc r =
        let id = w.ids.next_tx_id in
        let start = begin_transaction P w a in
        let c = create_utxos-Gained P acc id start a.created_utxos in
        let d = spend_utxos-Gained P F s acc id _ r.spent a.spent_utxos r.spending in
        rw (ended-deltas r) (omega (arith, c, d))

    ended-IsTally :
        (r : Round P F s height w index a)
        → HasAccounts a.created_utxos × HasAccounts a.spent_utxos
        → IsTally w.balance_deltas
        → IsTally (ended P F s r).balance_deltas
    unfolding begin_transaction
    ended-IsTally r h t =
        let id = w.ids.next_tx_id in
        rw (ended-deltas r) (
          spend_utxos-IsTally P F s id _ r.spent a.spent_utxos r.spending h.1
            (create_utxos-IsTally P id (begin_transaction P w a) a.created_utxos h.0 t))

  -- The tally of a block's transaction loop.
  pub transactions-IsTally :
      (acc : Account) (height : ℕ) (w v : Writer) (index n : ℕ) (xs : List AppliedTransaction)
      → fold_ok (write_transaction P F s height) (w, index) xs ≡ ok (v, n)
      → BlockHasAccounts xs
      → IsTally w.balance_deltas
      → Gained acc w.balance_deltas v.balance_deltas (created_value acc xs) (spent_value acc xs)
        × IsTally v.balance_deltas
  unfolding fold_ok created_value spent_value
  transactions-IsTally acc height w v index n [] h b t =
      let e = ap (λ x. x.0.balance_deltas) (ok-injective h) in
      (subst (λ d. Gained acc w.balance_deltas d 0 0) e (omega arith), subst IsTally e t)
  transactions-IsTally acc height w v index n (a ∷ xs) h b t =
      let (y, step, rest) = >>=-eq-ok (write_transaction P F s height (w, index) a) _ h in
      let (r, eq) = write_transaction-Round P F s height w index a y step in
      let g = ended-Gained acc r in
      let (ih, tally) =
        transactions-IsTally acc height (ended P F s r) v (index + 1) n xs (rw eq at rest) b.1
          (ended-IsTally r b.0 t) in
      (omega (arith, g, ih), tally)

  -- The transaction loop writes no balance.
  pub transactions-balances :
      (height : ℕ) (w v : Writer) (index n : ℕ) (xs : List AppliedTransaction)
      → fold_ok (write_transaction P F s height) (w, index) xs ≡ ok (v, n)
      → Quiet balances w.batch v.batch
  unfolding fold_ok
  transactions-balances height w v index n [] h =
      subst (λ x. Quiet balances w.batch x.0.batch) (ok-injective h) Quiet-refl
  transactions-balances height w v index n (a ∷ xs) h =
      let (y, step, rest) = >>=-eq-ok (write_transaction P F s height (w, index) a) _ h in
      let (r, eq) = write_transaction-Round P F s height w index a y step in
      Quiet-trans
        (Quiet-trans (told-Quiet P F s height balances-Elsewhere w index a r)
          (Quiet-insert _ _ _ balances-Apart_txs Quiet-refl))
        (transactions-balances height (ended P F s r) v (index + 1) n xs (rw eq at rest))

  -- After the balance loop only other partitions are written.
  pub final_balances :
      {b : Block} {xs : List AppliedTransaction} {ids : Counters} (r : BlockRun P F s b xs ids)
      (key : Bytes) (window : LedgerStateWindow)
      → Quiet balances r.balanced (final_batch P F s r key window)
  unfolding write_block_record tag
  final_balances {b} r key window =
      Quiet-trans (write_histories-Quiet r.balanced r.written.touched_addresses refl) (
        Quiet-trans
          (registrations-Quiet P F s b.height _ r.registered b.dust_registration_events refl
            r.registering)
          (Quiet-trans
            (Quiet-insert blocks_by_hash _ _ refl (Quiet-insert blocks _ _ refl Quiet-refl))
            (insert_metas-Quiet (recorded P F s r) _ refl)))
