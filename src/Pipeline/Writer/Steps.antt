-- ===== src/Pipeline/Writer/Steps.antt =====
-- What a successful round of the transaction loop of `write_block` went through, and the ids that
-- its steps give out.
use nightfrost.Prelude.{ℕ, ◌+◌, ◌≡◌, sym, List, [], ok, >>=-eq-ok, ok-injective}
use nightfrost.Store.Fjall.{Fjall, txs}
use nightfrost.Store.Keys.{u64_key}
use nightfrost.Store.Records.{Postcard}
use nightfrost.Pipeline.Writer.Defs.{Writer, AppliedTransaction, batch_insert, fold, fold_ok}
use nightfrost.Pipeline.Writer.Utxos.{create_utxo, spend_utxo}
use nightfrost.Pipeline.Writer.Events.{actions_with_ids, write_event}
use nightfrost.Pipeline.Writer.Transactions.{
  begin_transaction, tx_record, write_action_id, write_transaction,
}

module _ (P : Postcard) (F : Fjall) (s : F.Keyspace) where
  -- The writers between the loops of one round.
  pub record Round (height : ℕ) (w : Writer) (index : ℕ) (a : AppliedTransaction) : Type 0 where
    pub spent : Writer
    pub acted : Writer
    pub action_ids : List ℕ
    pub spending :
        fold_ok
          (spend_utxo P w.ids.next_tx_id F s)
          (fold (create_utxo P w.ids.next_tx_id) (begin_transaction P w a) a.created_utxos)
          a.spent_utxos
        ≡ ok spent
    pub acting :
        fold_ok (write_action_id P F s w.ids.next_tx_id) (spent, []) a.contract_actions
        ≡ ok (acted, action_ids)

  abbrev pub told :
      {height : ℕ} {w : Writer} {index : ℕ} {a : AppliedTransaction}
      → Round height w index a
      → Writer
  told {height} {w} {index} {a} r =
      fold
        (write_event P w.ids.next_tx_id height (actions_with_ids a.contract_actions r.action_ids))
        r.acted a.ledger_events

  abbrev pub ended :
      {height : ℕ} {w : Writer} {index : ℕ} {a : AppliedTransaction}
      → Round height w index a
      → Writer
  ended {height} {w} {index} {a} r = record (told r) {
    batch = batch_insert (told r).batch txs (u64_key w.ids.next_tx_id) (
        P.tx.encode
          (tx_record height index a r.action_ids w.ids.next_event_id (told r).ids.next_event_id));
  }

  pub write_transaction-Round :
      (height : ℕ) (w : Writer) (index : ℕ) (a : AppliedTransaction) (v : Writer × ℕ)
      → write_transaction P F s height (w, index) a ≡ ok v
      → (r : Round height w index a) × (v ≡ (ended r, index + 1))
  unfolding write_transaction
  write_transaction-Round height w index a v h =
      let (spent, spending, h') = >>=-eq-ok (fold_ok _ _ a.spent_utxos) _ h in
      let (acted, acting, h'') = >>=-eq-ok (fold_ok _ _ a.contract_actions) _ h' in
      (
        record {
          spent = spent;
          acted = acted.0;
          action_ids = acted.1;
          spending = spending;
          acting = acting;
        },
        sym (ok-injective h''),
      )
