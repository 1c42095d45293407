-- ===== src/Pipeline/Writer/Ids.antt =====
-- The ids that the loops of `write_block` give out: consecutive, and none twice.
use nightfrost.Prelude.{
  ℕ, zero, suc, ◌+◌, ◌^◌, ◌<◌, ◌≡◌, refl, ap, sym, ◌∙◌, Option, none, some, List, [], ◌∷◌, ◌++◌,
  arith, length, length-append, append-nil, append_assoc, ok, >>=-eq-ok, ok-injective,
}
use nightfrost.Bytes.{Bytes}
use nightfrost.Domain.{UnshieldedUtxo, LedgerEvent}
use nightfrost.Domain.Correlate.{Action}
use nightfrost.Store.Fjall.{Fjall}
use nightfrost.Store.Records.{Postcard}
use nightfrost.Pipeline.Writer.Defs.{
  Writer, AppliedTransaction, bump, fold, fold_ok, fold_keeps, fold_ok_keeps,
}
use nightfrost.Pipeline.Writer.Utxos.{create_utxo, spend_utxo, find_utxo}
use nightfrost.Pipeline.Writer.Actions.{
  AppliedAction, insert_state, point_contract, find_contract, point_unless_failed, write_action,
}
use nightfrost.Pipeline.Writer.Events.{actions_with_ids, write_event}
use nightfrost.Pipeline.Writer.Transactions.{begin_transaction, write_action_id}
use nightfrost.Pipeline.Writer.Steps.{Round, ended}

pub bump-eq : (n : ℕ) → n + 1 < 2 ^ 64 → bump n ≡ n + 1
unfolding bump
bump-eq n h = omega arith

-- So many ids from the first one on.
abbrev pub consecutive : ℕ → ℕ → List ℕ
consecutive first zero = []
consecutive first (suc n) = first ∷ consecutive (first + 1) n

module _ (P : Postcard) where
  create_utxos-ids :
      (tx_id : ℕ) (w : Writer) (us : List UnshieldedUtxo)
      → (fold (create_utxo P tx_id) w us).ids ≡ w.ids
  unfolding create_utxo
  create_utxos-ids tx_id w us =
      fold_keeps (λ v. v.ids ≡ w.ids) (create_utxo P tx_id) (λ v u h. h) w us refl

  pub write_events-ids :
      (tx_id height : ℕ) (actions : List Action) (w : Writer) (xs : List LedgerEvent)
      → w.ids.next_event_id + length xs < 2 ^ 64
      → ((fold (write_event P tx_id height actions) w xs).ids.next_event_id
          ≡ w.ids.next_event_id + length xs)
        × ((fold (write_event P tx_id height actions) w xs).ids.next_tx_id ≡ w.ids.next_tx_id)
        × ((fold (write_event P tx_id height actions) w xs).ids.next_action_id
            ≡ w.ids.next_action_id)
  unfolding fold write_event
  write_events-ids tx_id height actions w [] h = (omega arith, refl, refl)
  write_events-ids tx_id height actions w (x ∷ xs) h =
      let e = bump-eq w.ids.next_event_id (omega arith) in
      let ih =
        write_events-ids tx_id height actions (write_event P tx_id height actions w x) xs
          (omega (arith, e)) in
      (omega (arith, e, ih), ih.1, ih.2)

  module _ (F : Fjall) (s : F.Keyspace) where
    spend_utxo-ids :
        (tx_id : ℕ) (w v : Writer) (u : UnshieldedUtxo)
        → spend_utxo P tx_id F s w u ≡ ok v
        → v.ids ≡ w.ids
    unfolding spend_utxo
    spend_utxo-ids tx_id w v u h =
        let (found, _, eq) = >>=-eq-ok (find_utxo P tx_id F s w _) _ h in
        ap (λ x. x.ids) (sym (ok-injective eq))

    spend_utxos-ids :
        (tx_id : ℕ) (w v : Writer) (us : List UnshieldedUtxo)
        → fold_ok (spend_utxo P tx_id F s) w us ≡ ok v
        → v.ids ≡ w.ids
    spend_utxos-ids tx_id w v us h =
        fold_ok_keeps (λ x. x.ids ≡ w.ids) (spend_utxo P tx_id F s)
          (λ x y u step k. spend_utxo-ids tx_id x y u step ∙ k) w v us h refl

    insert_state-ids :
        (w : Writer) (h : Option Bytes) (blob : Bytes) → (insert_state F s w h blob).ids ≡ w.ids
    unfolding insert_state
    insert_state-ids w none blob = refl
    insert_state-ids w (some hash) blob = ground arith

    point_unless_failed-ids :
        (h : Option Bytes) (w v : Writer) (address : Bytes) (id : ℕ)
        → point_unless_failed P F s h w address id ≡ ok v
        → v.ids ≡ w.ids
    unfolding point_unless_failed point_contract
    point_unless_failed-ids none w v address id h = ap (λ x. x.ids) (sym (ok-injective h))
    point_unless_failed-ids (some _) w v address id h =
        let (found, _, eq) = >>=-eq-ok (find_contract P F s w address) _ h in
        ap (λ x. x.ids) (sym (ok-injective eq))

    pub write_action-ids :
        (tx_id : ℕ) (w v : Writer) (a : AppliedAction)
        → write_action P F s tx_id w a ≡ ok v
        → v.ids ≡ record (w.ids) { next_action_id = bump w.ids.next_action_id }
    unfolding write_action
    write_action-ids tx_id w v (address, action, blob) h =
        point_unless_failed-ids action.state_hash _ v address w.ids.next_action_id h
        ∙ insert_state-ids _ action.state_hash blob

    write_actions-ids :
        (tx_id : ℕ) (w v : Writer) (before after : List ℕ) (actions : List AppliedAction)
        → fold_ok (write_action_id P F s tx_id) (w, before) actions ≡ ok (v, after)
        → (v.ids.next_tx_id ≡ w.ids.next_tx_id)
          × (v.ids.next_event_id ≡ w.ids.next_event_id)
          × (length after ≡ length before + length actions)
    unfolding fold_ok write_action_id
    write_actions-ids tx_id w v before after [] h = ground arith
    write_actions-ids tx_id w v before after (a ∷ actions) h =
        let (x, step, rest) = >>=-eq-ok (write_action_id P F s tx_id (w, before) a) _ h in
        let (w', first, eq) = >>=-eq-ok (write_action P F s tx_id w a) _ step in
        let e = write_action-ids tx_id w w' a first in
        let ih =
          write_actions-ids tx_id w' v (before ++ w.ids.next_action_id ∷ []) after actions
            (rw (← ok-injective eq) at rest) in
        (
          ih.0 ∙ ap (λ i. i.next_tx_id) e,
          ih.1 ∙ ap (λ i. i.next_event_id) e,
          omega (arith, ih.2, length-append before (w.ids.next_action_id ∷ [])),
        )

    -- The actions get consecutive ids.
    write_actions-consecutive :
        (tx_id : ℕ) (w v : Writer) (before after : List ℕ) (actions : List AppliedAction)
        → fold_ok (write_action_id P F s tx_id) (w, before) actions ≡ ok (v, after)
        → w.ids.next_action_id + length actions < 2 ^ 64
        → (v.ids.next_action_id ≡ w.ids.next_action_id + length actions)
          × (after ≡ before ++ consecutive w.ids.next_action_id (length actions))
    unfolding fold_ok write_action_id
    write_actions-consecutive tx_id w v before after [] h small = (
      ap (λ x. x.0.ids.next_action_id) (sym (ok-injective h)) ∙ omega arith,
      ap (λ x. x.1) (sym (ok-injective h)) ∙ sym (append-nil before),
    )
    write_actions-consecutive tx_id w v before after (a ∷ actions) h small =
        let (x, step, rest) = >>=-eq-ok (write_action_id P F s tx_id (w, before) a) _ h in
        let (w', first, eq) = >>=-eq-ok (write_action P F s tx_id w a) _ step in
        let e =
          ap (λ i. i.next_action_id) (write_action-ids tx_id w w' a first)
          ∙ bump-eq w.ids.next_action_id (omega (arith, small)) in
        let ih =
          write_actions-consecutive tx_id w' v (before ++ w.ids.next_action_id ∷ []) after actions
            (rw (← ok-injective eq) at rest) (omega (arith, e, small)) in
        (omega (arith, ih.0, e), ih.1 ∙ append_assoc before (w.ids.next_action_id ∷ []) _ ∙ rw e)

    -- The ids in front of a round's loops.
    made-ids :
        (w : Writer) (a : AppliedTransaction)
        → (fold (create_utxo P w.ids.next_tx_id) (begin_transaction P w a) a.created_utxos).ids
          ≡ record (w.ids) { next_tx_id = bump w.ids.next_tx_id }
    unfolding begin_transaction
    made-ids w a = create_utxos-ids w.ids.next_tx_id (begin_transaction P w a) a.created_utxos

    -- One round: a transaction id, and an event id for each event.
    module _ {height : ℕ} {w : Writer} {index : ℕ} {a : AppliedTransaction} where
      pub acted-ids :
          (r : Round P F s height w index a)
          → (r.acted.ids.next_tx_id ≡ bump w.ids.next_tx_id)
            × (r.acted.ids.next_event_id ≡ w.ids.next_event_id)
            × (length r.action_ids ≡ length a.contract_actions)
      acted-ids r =
          let e =
            spend_utxos-ids w.ids.next_tx_id _ r.spent a.spent_utxos r.spending ∙ made-ids w a in
          let t =
            write_actions-ids w.ids.next_tx_id r.spent r.acted [] r.action_ids a.contract_actions
              r.acting in
          (t.0 ∙ ap (λ i. i.next_tx_id) e, t.1 ∙ ap (λ i. i.next_event_id) e, omega (arith, t.2))

      pub acted-consecutive :
          (r : Round P F s height w index a)
          → w.ids.next_action_id + length a.contract_actions < 2 ^ 64
          → (r.acted.ids.next_action_id ≡ w.ids.next_action_id + length a.contract_actions)
            × (r.action_ids ≡ consecutive w.ids.next_action_id (length a.contract_actions))
      acted-consecutive r small =
          let e =
            ap (λ i. i.next_action_id)
              (spend_utxos-ids w.ids.next_tx_id _ r.spent a.spent_utxos r.spending
                ∙ made-ids w a) in
          let t =
            write_actions-consecutive w.ids.next_tx_id r.spent r.acted [] r.action_ids
              a.contract_actions r.acting (omega (arith, e, small)) in
          (omega (arith, t.0, e), t.1 ∙ rw e)

      pub ended-action_id :
          (r : Round P F s height w index a)
          → w.ids.next_event_id + length a.ledger_events < 2 ^ 64
          → w.ids.next_action_id + length a.contract_actions < 2 ^ 64
          → (ended P F s r).ids.next_action_id ≡ w.ids.next_action_id + length a.contract_actions
      ended-action_id r h small =
          let (_, event, _) = acted-ids r in
          let e =
            write_events-ids w.ids.next_tx_id height
              (actions_with_ids a.contract_actions r.action_ids) r.acted a.ledger_events
              (omega (arith, event)) in
          e.2 ∙ (acted-consecutive r small).0

      pub ended-ids :
          (r : Round P F s height w index a)
          → w.ids.next_event_id + length a.ledger_events < 2 ^ 64
          → ((ended P F s r).ids.next_tx_id ≡ bump w.ids.next_tx_id)
            × ((ended P F s r).ids.next_event_id ≡ w.ids.next_event_id + length a.ledger_events)
      ended-ids r h =
          let (tx, event, _) = acted-ids r in
          let e =
            write_events-ids w.ids.next_tx_id height
              (actions_with_ids a.contract_actions r.action_ids) r.acted a.ledger_events
              (omega (arith, event)) in
          (e.1 ∙ tx, omega (arith, e.0, event))
