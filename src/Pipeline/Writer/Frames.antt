-- ===== src/Pipeline/Writer/Frames.antt =====
-- What the steps of a transaction leave alone: a partition that they do not write holds, under
-- every key, what it held.
use nightfrost.Prelude.{ℕ, ◌≡◌, refl, ◌∙◌, false, Option, none, some, List, arith, ◌==◌}
use nightfrost.Bytes.{Bytes}
use nightfrost.Domain.{UnshieldedUtxo, LedgerEvent, LedgerEventGrouping, DustGenerationInfo}
use nightfrost.Domain.Correlate.{Action}
use nightfrost.Store.Fjall.{
  Partition, Batch, tag, latest, same_key, meta, blocks, blocks_by_hash, txs, txs_by_hash,
  txs_by_identifier, utxos, utxos_unspent_by_owner, balances, contract_actions,
  contract_actions_by_addr, contract_states, contracts, ledger_events, wallet_dust_events,
  wallet_tx_indices, events_by_contract, dust_generation, dust_gen_by_owner,
}
use nightfrost.Store.Records.{Postcard}
use nightfrost.Pipeline.Writer.Defs.{
  Writer, AppliedTransaction, batch_insert, batch_remove, latest-batch_insert, latest-batch_remove,
  fold, fold_keeps,
}
use nightfrost.Pipeline.Writer.Utxos.{create_utxo}
use nightfrost.Pipeline.Writer.Events.{
  write_event, attribute_event, index_by_contract, index_dust, index_generation, generation_info,
}
use nightfrost.Pipeline.Writer.Transactions.{begin_transaction}

abbrev pub Apart : Partition → Partition → Type 0
Apart q p = (tag q == tag p) ≡ false

-- `q` is none of the partitions that the loops within a transaction write.
pub record Elsewhere (q : Partition) : Type 0 where
  pub from_utxos : Apart q utxos
  pub from_unspent : Apart q utxos_unspent_by_owner
  pub from_actions : Apart q contract_actions
  pub from_actions_by_addr : Apart q contract_actions_by_addr
  pub from_states : Apart q contract_states
  pub from_contracts : Apart q contracts
  pub from_events : Apart q ledger_events
  pub from_dust_events : Apart q wallet_dust_events
  pub from_indices : Apart q wallet_tx_indices
  pub from_events_by_contract : Apart q events_by_contract
  pub from_generation : Apart q dust_generation
  pub from_generation_by_owner : Apart q dust_gen_by_owner
  pub from_hash : Apart q txs_by_hash
  pub from_identifier : Apart q txs_by_identifier

pub txs-Elsewhere : Elsewhere txs
unfolding tag
txs-Elsewhere = ground arith

pub meta-Elsewhere : Elsewhere meta
unfolding tag
meta-Elsewhere = ground arith

pub blocks-Elsewhere : Elsewhere blocks
unfolding tag
blocks-Elsewhere = ground arith

pub blocks_by_hash-Elsewhere : Elsewhere blocks_by_hash
unfolding tag
blocks_by_hash-Elsewhere = ground arith

pub balances-Elsewhere : Elsewhere balances
unfolding tag
balances-Elsewhere = ground arith

-- The second batch leaves in `q` what the first does.
pub record Quiet (q : Partition) (b c : Batch) : Type 0 where
  pub at : (k : Bytes) (old : Option Bytes) → latest q k old c ≡ latest q k old b

pub Quiet-refl : {q : Partition} {b : Batch} → Quiet q b b
Quiet-refl = record { at = λ k old. refl }

pub Quiet-trans : {q : Partition} {b c d : Batch} → Quiet q b c → Quiet q c d → Quiet q b d
Quiet-trans x y = record { at = λ k old. y.at k old ∙ x.at k old }

pub Quiet-insert :
    {q : Partition} {b c : Batch} (p : Partition) (k v : Bytes)
    → Apart q p
    → Quiet q b c
    → Quiet q b (batch_insert c p k v)
unfolding same_key
Quiet-insert {q} {b} {c} p k v h x = record {
  at = λ j old. rw (latest-batch_insert q j old c p k v) (rw h (x.at j old));
}

pub Quiet-remove :
    {q : Partition} {b c : Batch} (p : Partition) (k : Bytes)
    → Apart q p
    → Quiet q b c
    → Quiet q b (batch_remove c p k)
unfolding same_key
Quiet-remove {q} {b} {c} p k h x = record {
  at = λ j old. rw (latest-batch_remove q j old c p k) (rw h (x.at j old));
}

module _ {q : Partition} (e : Elsewhere q) (P : Postcard) where
  pub begin_transaction-Quiet :
      (w : Writer) (applied : AppliedTransaction)
      → Quiet q w.batch (begin_transaction P w applied).batch
  unfolding begin_transaction
  begin_transaction-Quiet w applied =
      fold_keeps (Quiet q w.batch) _ (λ b i h. Quiet-insert _ _ _ e.from_identifier h) _
        applied.identifiers
        (Quiet-insert _ _ _ e.from_hash (Quiet-insert _ _ _ e.from_indices Quiet-refl))

  pub create_utxos-Quiet :
      (tx_id : ℕ) (w : Writer) (us : List UnshieldedUtxo)
      → Quiet q w.batch (fold (create_utxo P tx_id) w us).batch
  unfolding create_utxo
  create_utxos-Quiet tx_id w us =
      fold_keeps (λ v. Quiet q w.batch v.batch) (create_utxo P tx_id)
        (λ v u h. Quiet-insert _ _ _ e.from_unspent (Quiet-insert _ _ _ e.from_utxos h)) w us
        Quiet-refl

  index_by_contract-Quiet :
      {b c : Batch} (a : Option Bytes) (id : ℕ) → Quiet q b c → Quiet q b (index_by_contract c a id)
  unfolding index_by_contract
  index_by_contract-Quiet none id h = h
  index_by_contract-Quiet (some a) id h = Quiet-insert _ _ _ e.from_events_by_contract h

  index_dust-Quiet :
      {b c : Batch} (g : LedgerEventGrouping) (id : ℕ) → Quiet q b c → Quiet q b (index_dust c g id)
  unfolding index_dust
  index_dust-Quiet LedgerEventGrouping.dust id h = Quiet-insert _ _ _ e.from_dust_events h
  index_dust-Quiet LedgerEventGrouping.zswap id h = h
  index_dust-Quiet LedgerEventGrouping.contract id h = h

  index_generation-Quiet :
      {b c : Batch} (i : Option DustGenerationInfo) (tx_id : ℕ)
      → Quiet q b c
      → Quiet q b (index_generation P c i tx_id)
  unfolding index_generation
  index_generation-Quiet none tx_id h = h
  index_generation-Quiet (some i) tx_id h =
      Quiet-insert _ _ _ e.from_generation_by_owner (Quiet-insert _ _ _ e.from_generation h)

  write_event-Quiet :
      (tx_id height : ℕ) (actions : List Action) (w : Writer) (x : LedgerEvent)
      → Quiet q w.batch (write_event P tx_id height actions w x).batch
  unfolding write_event
  write_event-Quiet tx_id height actions w x =
      let x' = attribute_event actions x in
      index_generation-Quiet (generation_info x'.attributes) tx_id (
        index_dust-Quiet x'.grouping w.ids.next_event_id (
          Quiet-insert _ _ _ e.from_events
            (index_by_contract-Quiet x'.contract_address w.ids.next_event_id Quiet-refl)))

  pub write_events-Quiet :
      (tx_id height : ℕ) (actions : List Action) (w : Writer) (xs : List LedgerEvent)
      → Quiet q w.batch (fold (write_event P tx_id height actions) w xs).batch
  write_events-Quiet tx_id height actions w xs =
      fold_keeps (λ v. Quiet q w.batch v.batch) (write_event P tx_id height actions)
        (λ v x h. Quiet-trans h (write_event-Quiet tx_id height actions v x)) w xs Quiet-refl
