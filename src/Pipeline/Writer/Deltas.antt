-- ===== src/Pipeline/Writer/Deltas.antt =====
-- The balance deltas that the transaction loop of `write_block` collects: for each account, what
-- was created less what was spent, modulo 2^128.
use nightfrost.Prelude.{
  ℕ, ◌+◌, ◌%◌, ◌^◌, ◌≡◌, refl, ap, sym, ◌∙◌, Option, none, some, List, [], ◌∷◌, arith, length, All,
  ok, >>=-eq-ok, ok-injective, subst, if◌then◌else◌,
}
use nightfrost.Prelude.Keyed
use nightfrost.Prelude.Keyed.{
  Key, pair_key, pair_beq, pair_beq_iff, lookup-insert, IsMap, insert-IsMap,
}
use nightfrost.Bytes.{Bytes}
use nightfrost.Domain.{UnshieldedUtxo, LedgerEvent}
use nightfrost.Domain.Correlate.{Action}
use nightfrost.Store.Fjall.{Fjall}
use nightfrost.Store.Records.{Postcard}
use nightfrost.Store.Keys.{utxo_key}
use nightfrost.Pipeline.Writer.Defs.{
  Writer, AppliedTransaction, bytes_key, fold, fold_ok, fold_keeps, fold_ok_keeps,
}
use nightfrost.Pipeline.Writer.Utxos.{
  Deltas, delta_of, i128_add, i128_sub, create_utxo, spend_utxo, find_utxo,
}
use nightfrost.Pipeline.Writer.Actions.{
  AppliedAction, insert_state, point_contract, find_contract, point_unless_failed, write_action,
}
use nightfrost.Pipeline.Writer.Events.{write_event}
use nightfrost.Pipeline.Writer.Transactions.{write_action_id}

abbrev pub Account : Type 0
Account = Bytes × Bytes

abbrev pub account : UnshieldedUtxo → Account
account u = (u.owner, u.token_type)

-- The value of an account's utxos among some.
unfoldable pub value_of : Account → List UnshieldedUtxo → ℕ
value_of acc [] = 0
value_of acc (u ∷ us) = (if pair_beq (account u) acc then u.value else 0) + value_of acc us

-- Over all transactions of a block.
unfoldable pub created_value : Account → List AppliedTransaction → ℕ
created_value acc [] = 0
created_value acc (a ∷ xs) = value_of acc a.created_utxos + created_value acc xs

unfoldable pub spent_value : Account → List AppliedTransaction → ℕ
spent_value acc [] = 0
spent_value acc (a ∷ xs) = value_of acc a.spent_utxos + spent_value acc xs

-- An account of two `[u8; 32]`.
abbrev pub IsAccount : Account → Type 0
IsAccount acc = (length acc.0 ≡ 32) × (length acc.1 ≡ 32)

abbrev pub HasAccounts : List UnshieldedUtxo → Type 0
HasAccounts us = All (λ u. IsAccount (account u)) us

-- Each account stands once, and is one.
pub record IsTally (deltas : Deltas) : Type 0 where
  pub once : IsMap deltas
  pub accounts : All (λ e. IsAccount e.0) deltas

-- Between two tallies an account has gained `c` and lost `s`.
abbrev pub Gained : Account → Deltas → Deltas → ℕ → ℕ → Type 0
Gained acc before after c s =
    (delta_of acc after + s) % 2 ^ 128 ≡ (delta_of acc before + c) % 2 ^ 128

pub delta_of-insert :
    (acc k : Account) (d : ℕ) (m : Deltas)
    → delta_of acc (Keyed.insert k d m) ≡ (if pair_beq k acc then d else delta_of acc m)
unfolding delta_of
delta_of-insert acc k d m = ground (arith, lookup-insert k acc d m)

insert_accounts :
    (k : Account) (d : ℕ) (m : Deltas)
    → IsAccount k
    → All (λ e. IsAccount e.0) m
    → All (λ e. IsAccount e.0) (Keyed.insert k d m)
unfolding Keyed.insert
insert_accounts k d [] h a = (h, tt)
insert_accounts k d ((j, w) ∷ m) h a = ground (arith, insert_accounts k d m h a.1)

pub insert-IsTally :
    (k : Account) (d : ℕ) (m : Deltas) → IsAccount k → IsTally m → IsTally (Keyed.insert k d m)
insert-IsTally k d m h t = record {
  once = insert-IsMap k d m t.once;
  accounts = insert_accounts k d m h t.accounts;
}

gain_one :
    (acc k : Account) (v : ℕ) (m : Deltas)
    → Gained acc m
        (Keyed.insert k (i128_add (delta_of k m) v) m)
        (if pair_beq k acc then v else 0)
        0
unfolding i128_add
gain_one acc k v m =
    ground (arith, delta_of-insert acc k ((delta_of k m + v) % 2 ^ 128) m, pair_beq_iff k acc)

lose_one :
    (acc k : Account) (v : ℕ) (m : Deltas)
    → Gained acc m
        (Keyed.insert k (i128_sub (delta_of k m) v) m)
        0
        (if pair_beq k acc then v else 0)
unfolding i128_sub
lose_one acc k v m =
    ground (arith, delta_of-insert acc k (i128_sub (delta_of k m) v) m, pair_beq_iff k acc)

module _ (P : Postcard) where
  pub create_utxos-Gained :
      (acc : Account) (tx_id : ℕ) (w : Writer) (us : List UnshieldedUtxo)
      → Gained acc w.balance_deltas
          (fold (create_utxo P tx_id) w us).balance_deltas
          (value_of acc us)
          0
  unfolding fold create_utxo value_of
  create_utxos-Gained acc tx_id w [] = omega arith
  create_utxos-Gained acc tx_id w (u ∷ us) = omega (
    arith,
    gain_one acc (account u) u.value w.balance_deltas,
    create_utxos-Gained acc tx_id (create_utxo P tx_id w u) us,
  )

  pub create_utxos-IsTally :
      (tx_id : ℕ) (w : Writer) (us : List UnshieldedUtxo)
      → HasAccounts us
      → IsTally w.balance_deltas
      → IsTally (fold (create_utxo P tx_id) w us).balance_deltas
  unfolding fold create_utxo
  create_utxos-IsTally tx_id w [] h t = t
  create_utxos-IsTally tx_id w (u ∷ us) h t =
      create_utxos-IsTally tx_id (create_utxo P tx_id w u) us h.1
        (insert-IsTally (account u) _ w.balance_deltas h.0 t)

  pub write_events-deltas :
      (tx_id height : ℕ) (actions : List Action) (w : Writer) (xs : List LedgerEvent)
      → (fold (write_event P tx_id height actions) w xs).balance_deltas ≡ w.balance_deltas
  unfolding write_event
  write_events-deltas tx_id height actions w xs =
      fold_keeps (λ v. v.balance_deltas ≡ w.balance_deltas) (write_event P tx_id height actions)
        (λ v x h. h) w xs refl

  module _ (F : Fjall) (s : F.Keyspace) where
    pub spend_utxos-Gained :
        (acc : Account) (tx_id : ℕ) (w v : Writer) (us : List UnshieldedUtxo)
        → fold_ok (spend_utxo P tx_id F s) w us ≡ ok v
        → Gained acc w.balance_deltas v.balance_deltas 0 (value_of acc us)
    unfolding fold_ok spend_utxo value_of
    spend_utxos-Gained acc tx_id w v [] h =
        subst (λ x. Gained acc w.balance_deltas x.balance_deltas 0 0) (ok-injective h) (omega arith)
    spend_utxos-Gained acc tx_id w v (u ∷ us) h =
        let (x, step, rest) = >>=-eq-ok (spend_utxo P tx_id F s w u) _ h in
        let (found, _, eq) =
          >>=-eq-ok (find_utxo P tx_id F s w (utxo_key u.intent_hash u.output_index)) _ step in
        let one : Gained acc w.balance_deltas x.balance_deltas 0
            (if pair_beq (account u) acc then u.value else 0) =
          subst
            (λ y.
              Gained acc w.balance_deltas y.balance_deltas 0
                (if pair_beq (account u) acc then u.value else 0))
            (ok-injective eq) (lose_one acc (account u) u.value w.balance_deltas) in
        omega (arith, one, spend_utxos-Gained acc tx_id x v us rest)

    pub spend_utxos-IsTally :
        (tx_id : ℕ) (w v : Writer) (us : List UnshieldedUtxo)
        → fold_ok (spend_utxo P tx_id F s) w us ≡ ok v
        → HasAccounts us
        → IsTally w.balance_deltas
        → IsTally v.balance_deltas
    unfolding fold_ok spend_utxo
    spend_utxos-IsTally tx_id w v [] h a t =
        subst (λ x. IsTally x.balance_deltas) (ok-injective h) t
    spend_utxos-IsTally tx_id w v (u ∷ us) h a t =
        let (x, step, rest) = >>=-eq-ok (spend_utxo P tx_id F s w u) _ h in
        let (found, _, eq) =
          >>=-eq-ok (find_utxo P tx_id F s w (utxo_key u.intent_hash u.output_index)) _ step in
        spend_utxos-IsTally tx_id x v us rest a.1 (
          subst (λ y. IsTally y.balance_deltas) (ok-injective eq)
            (insert-IsTally (account u) _ w.balance_deltas a.0 t))

    insert_state-deltas :
        (w : Writer) (h : Option Bytes) (blob : Bytes)
        → (insert_state F s w h blob).balance_deltas ≡ w.balance_deltas
    unfolding insert_state
    insert_state-deltas w none blob = refl
    insert_state-deltas w (some hash) blob = ground arith

    point_unless_failed-deltas :
        (h : Option Bytes) (w v : Writer) (address : Bytes) (id : ℕ)
        → point_unless_failed P F s h w address id ≡ ok v
        → v.balance_deltas ≡ w.balance_deltas
    unfolding point_unless_failed point_contract
    point_unless_failed-deltas none w v address id h =
        ap (λ x. x.balance_deltas) (sym (ok-injective h))
    point_unless_failed-deltas (some _) w v address id h =
        let (found, _, eq) = >>=-eq-ok (find_contract P F s w address) _ h in
        ap (λ x. x.balance_deltas) (sym (ok-injective eq))

    write_action_id-deltas :
        (tx_id : ℕ) (x y : Writer × List ℕ) (a : AppliedAction)
        → write_action_id P F s tx_id x a ≡ ok y
        → y.0.balance_deltas ≡ x.0.balance_deltas
    unfolding write_action_id write_action
    write_action_id-deltas tx_id (w, ids) y (address, action, blob) h =
        let (v, first, eq) = >>=-eq-ok (write_action P F s tx_id w (address, action, blob)) _ h in
        ap (λ z. z.0.balance_deltas) (sym (ok-injective eq))
        ∙ point_unless_failed-deltas action.state_hash _ v address w.ids.next_action_id first
        ∙ insert_state-deltas _ action.state_hash blob

    pub write_actions-deltas :
        (tx_id : ℕ) (x y : Writer × List ℕ) (actions : List AppliedAction)
        → fold_ok (write_action_id P F s tx_id) x actions ≡ ok y
        → y.0.balance_deltas ≡ x.0.balance_deltas
    write_actions-deltas tx_id x y actions h =
        fold_ok_keeps (λ z. z.0.balance_deltas ≡ x.0.balance_deltas) (write_action_id P F s tx_id)
          (λ z t a step k. write_action_id-deltas tx_id z t a step ∙ k) x y actions h refl
