-- ===== src/Pipeline/Writer/ActionFrames.antt =====
-- What the steps of a transaction that read the store leave alone: its spent utxos and its
-- contract actions.
use nightfrost.Prelude.{
  ℕ, ◌≡◌, Option, none, some, List, ok, >>=-eq-ok, ok-injective, subst, Bool-cases, Option-cases,
  inl, inr,
}
use nightfrost.Prelude.Keyed
use nightfrost.Bytes.{Bytes}
use nightfrost.Domain.{UnshieldedUtxo}
use nightfrost.Store.Fjall.{Fjall, Partition, contract_states}
use nightfrost.Store.Records.{Postcard}
use nightfrost.Pipeline.Writer.Defs.{Writer, bytes_key, fold_ok, fold_ok_keeps}
use nightfrost.Pipeline.Writer.Utxos.{spend_utxo, find_utxo}
use nightfrost.Pipeline.Writer.Actions.{
  AppliedAction, insert_state, insert_action, point_contract, find_contract, write_action,
  point_unless_failed,
}
use nightfrost.Pipeline.Writer.Transactions.{write_action_id}
use nightfrost.Pipeline.Writer.Frames.{
  Elsewhere, Quiet, Quiet-refl, Quiet-trans, Quiet-insert, Quiet-remove,
}

module _ {q : Partition} (e : Elsewhere q) (P : Postcard) (F : Fjall) (s : F.Keyspace) where
  spend_utxo-Quiet :
      (tx_id : ℕ) (w v : Writer) (u : UnshieldedUtxo)
      → spend_utxo P tx_id F s w u ≡ ok v
      → Quiet q w.batch v.batch
  unfolding spend_utxo
  spend_utxo-Quiet tx_id w v u h =
      let (found, _, eq) = >>=-eq-ok (find_utxo P tx_id F s w _) _ h in
      subst (λ x. Quiet q w.batch x.batch) (ok-injective eq)
        (Quiet-remove _ _ e.from_unspent (Quiet-insert _ _ _ e.from_utxos Quiet-refl))

  pub spend_utxos-Quiet :
      (tx_id : ℕ) (w v : Writer) (us : List UnshieldedUtxo)
      → fold_ok (spend_utxo P tx_id F s) w us ≡ ok v
      → Quiet q w.batch v.batch
  spend_utxos-Quiet tx_id w v us h =
      fold_ok_keeps (λ x. Quiet q w.batch x.batch) (spend_utxo P tx_id F s)
        (λ x y u step k. Quiet-trans k (spend_utxo-Quiet tx_id x y u step)) w v us h Quiet-refl

  insert_state-Quiet :
      (w : Writer) (h : Option Bytes) (blob : Bytes)
      → Quiet q w.batch (insert_state F s w h blob).batch
  unfolding insert_state
  insert_state-Quiet w none blob = Quiet-refl
  insert_state-Quiet w (some hash) blob =
      elim (Bool-cases (Keyed.member hash w.states_this_block)) [
        | inl seen ↦ rw seen Quiet-refl
        | inr new ↦ elim (Option-cases (F.get s contract_states hash)) [
          | inl gone ↦ rw (new, gone) (Quiet-insert _ _ _ e.from_states Quiet-refl)
          | inr (_, there) ↦ rw (new, there) Quiet-refl
        ]
      ]

  insert_action-Quiet :
      (tx_id : ℕ) (w : Writer) (a : AppliedAction)
      → Quiet q w.batch (insert_action P F s tx_id w a).batch
  unfolding insert_action
  insert_action-Quiet tx_id w (address, action, blob) =
      Quiet-insert _ _ _ e.from_actions_by_addr (Quiet-insert _ _ _ e.from_actions Quiet-refl)

  point_contract-Quiet :
      (w v : Writer) (address : Bytes) (id : ℕ)
      → point_contract P F s w address id ≡ ok v
      → Quiet q w.batch v.batch
  unfolding point_contract
  point_contract-Quiet w v address id h =
      let (found, _, eq) = >>=-eq-ok (find_contract P F s w address) _ h in
      subst (λ x. Quiet q w.batch x.batch) (ok-injective eq)
        (Quiet-insert _ _ _ e.from_contracts Quiet-refl)

  point_unless_failed-Quiet :
      (h : Option Bytes) (w v : Writer) (address : Bytes) (id : ℕ)
      → point_unless_failed P F s h w address id ≡ ok v
      → Quiet q w.batch v.batch
  unfolding point_unless_failed
  point_unless_failed-Quiet none w v address id h =
      subst (λ x. Quiet q w.batch x.batch) (ok-injective h) Quiet-refl
  point_unless_failed-Quiet (some _) w v address id h = point_contract-Quiet w v address id h

  write_action-Quiet :
      (tx_id : ℕ) (w v : Writer) (a : AppliedAction)
      → write_action P F s tx_id w a ≡ ok v
      → Quiet q w.batch v.batch
  unfolding write_action
  write_action-Quiet tx_id w v (address, action, blob) h =
      Quiet-trans
        (Quiet-trans (insert_action-Quiet tx_id w (address, action, blob))
          (insert_state-Quiet _ action.state_hash blob))
        (point_unless_failed-Quiet action.state_hash _ v address w.ids.next_action_id h)

  write_action_id-Quiet :
      (tx_id : ℕ) (z t : Writer × List ℕ) (a : AppliedAction)
      → write_action_id P F s tx_id z a ≡ ok t
      → Quiet q z.0.batch t.0.batch
  unfolding write_action_id
  write_action_id-Quiet tx_id (w, ids) t a h =
      let (v, first, eq) = >>=-eq-ok (write_action P F s tx_id w a) _ h in
      subst (λ z. Quiet q w.batch z.0.batch) (ok-injective eq)
        (write_action-Quiet tx_id w v a first)

  pub write_actions-Quiet :
      (tx_id : ℕ) (x y : Writer × List ℕ) (actions : List AppliedAction)
      → fold_ok (write_action_id P F s tx_id) x actions ≡ ok y
      → Quiet q x.0.batch y.0.batch
  write_actions-Quiet tx_id x y actions h =
      fold_ok_keeps (λ z. Quiet q x.0.batch z.0.batch) (write_action_id P F s tx_id)
        (λ z t a step k. Quiet-trans k (write_action_id-Quiet tx_id z t a step)) x y actions h
        Quiet-refl
