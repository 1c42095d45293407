-- ===== src/Pipeline/Writer/TxRecords.antt =====
-- Every transaction of a block has its record, under its own id.
use nightfrost.Prelude.{
  ℕ, zero, suc, ◌+◌, ◌%◌, ◌^◌, ◌<◌, ◌≤◌, ◌≡◌, ap, sym, ◌∙◌, false, Option, some, List, [], ◌∷◌,
  arith, length, get_elem?, take, ok, >>=-eq-ok, ok-injective, if◌then◌else◌,
}
use nightfrost.Bytes.{Bytes, bytes_eq, bytes_eq_refl, bytes_eq_iff}
use nightfrost.Bytes.BigEndian.{to_be-injective}
use nightfrost.Store.Fjall.{Fjall, Batch, Partition, tag, latest, same_key, txs}
use nightfrost.Store.Keys.{u64_key}
use nightfrost.Store.Records.{Postcard, TxRecord}
use nightfrost.Pipeline.Writer.Defs.{Writer, AppliedTransaction, latest-batch_insert, fold_ok}
use nightfrost.Pipeline.Writer.Transactions.{tx_record, event_count, write_transaction}
use nightfrost.Pipeline.Writer.Steps.{Round, told, ended, write_transaction-Round}
use nightfrost.Pipeline.Writer.Ids.{
  consecutive, bump-eq, acted-consecutive, ended-action_id, ended-ids,
}
use nightfrost.Pipeline.Writer.Frames.{
  Elsewhere, Quiet, Quiet-trans, txs-Elsewhere, begin_transaction-Quiet, create_utxos-Quiet,
  write_events-Quiet,
}
use nightfrost.Pipeline.Writer.ActionFrames.{spend_utxos-Quiet, write_actions-Quiet}

-- The number of events of all transactions.
unfoldable pub total_events : List AppliedTransaction → ℕ
total_events [] = 0
total_events (a ∷ xs) = length a.ledger_events + total_events xs

pub events_through :
    (i : ℕ) (xs : List AppliedTransaction) (a : AppliedTransaction)
    → get_elem? xs i ≡ some a
    → total_events (take i xs) + length a.ledger_events ≤ total_events xs
unfolding total_events
events_through i [] a g = absurd (ground arith)
events_through zero (x ∷ xs) a g = let same : x ≡ a = ground arith in rw (← same) (omega arith)
events_through (suc i) (x ∷ xs) a g = omega (arith, events_through i xs a g)

-- The number of contract actions of all transactions.
unfoldable pub total_actions : List AppliedTransaction → ℕ
total_actions [] = 0
total_actions (a ∷ xs) = length a.contract_actions + total_actions xs

-- The record that a transaction of the block is to have, by the block's height, its position, the first of its
-- actions' ids and the first of its events' ids.
abbrev pub expected_tx : ℕ → ℕ → ℕ → ℕ → AppliedTransaction → TxRecord
expected_tx height i first_action first_event a = record {
  hash = a.hash;
  block_height = height;
  index_in_block = i;
  variant = a.variant;
  result = a.result;
  paid_fees = a.fees;
  estimated_fees = a.fees;
  identifiers = a.identifiers;
  contract_action_ids = consecutive first_action (length a.contract_actions);
  first_event_id = first_event;
  event_count = length a.ledger_events;
  created_utxos = a.created_utxos;
  spent_utxos = a.spent_utxos;
  raw = a.raw;
}

module _ (P : Postcard) (F : Fjall) (s : F.Keyspace) (height : ℕ) where
  -- Until it writes its own record, a round writes nothing into a partition that lies elsewhere.
  pub told-Quiet :
      {q : Partition} (e : Elsewhere q) (w : Writer) (index : ℕ) (a : AppliedTransaction)
      (r : Round P F s height w index a)
      → Quiet q w.batch (told P F s r).batch
  told-Quiet e w index a r =
      let id = w.ids.next_tx_id in
      Quiet-trans (begin_transaction-Quiet e P w a) (
        Quiet-trans (create_utxos-Quiet e P id _ a.created_utxos) (
          Quiet-trans (spend_utxos-Quiet e P F s id _ r.spent a.spent_utxos r.spending) (
            Quiet-trans
              (write_actions-Quiet e P F s id (r.spent, []) (r.acted, r.action_ids)
                a.contract_actions r.acting)
              (write_events-Quiet e P id height _ r.acted a.ledger_events))))

  -- A key of `txs` after one round: the round's record at its id, or what was there.
  ended-txs :
      (w : Writer) (index : ℕ) (a : AppliedTransaction) (r : Round P F s height w index a)
      (k : Bytes) (old : Option Bytes)
      → latest txs k old (ended P F s r).batch ≡ (
          if bytes_eq k (u64_key w.ids.next_tx_id)
          then some (
              P.tx.encode (
                tx_record height index a r.action_ids w.ids.next_event_id
                  (told P F s r).ids.next_event_id))
          else latest txs k old w.batch)
  unfolding same_key tag
  ended-txs w index a r k old =
      latest-batch_insert txs k old (told P F s r).batch txs (u64_key w.ids.next_tx_id) _
      ∙ rw ((told-Quiet txs-Elsewhere w index a r).at k old)

  -- The record of one transaction, with an id for each action and as many events as it has.
  abbrev pub IsRecorded : Batch → Option Bytes → ℕ → ℕ → ℕ → ℕ → AppliedTransaction → Type 0
  IsRecorded batch old index id first_action first_event a =
      latest txs (u64_key id) old batch
      ≡ some (
          P.tx.encode (
            tx_record height index a (consecutive first_action (length a.contract_actions))
              first_event (first_event + length a.ledger_events)))

  other_id : (a b : ℕ) → a < b → b < 2 ^ 64 → bytes_eq (u64_key a) (u64_key b) ≡ false
  other_id a b h k = ground (
    arith,
    bytes_eq_iff (u64_key a) (u64_key b),
    λ (e : u64_key a ≡ u64_key b). to_be-injective 8 a b (omega arith) (omega arith) e,
  )

  -- What is there before the loop stays, under ids already given out.
  txs_untouched :
      (w v : Writer) (index n id : ℕ) (xs : List AppliedTransaction) (old : Option Bytes)
      → fold_ok (write_transaction P F s height) (w, index) xs ≡ ok (v, n)
      → w.ids.next_tx_id + length xs < 2 ^ 64
      → w.ids.next_event_id + total_events xs < 2 ^ 64
      → id < w.ids.next_tx_id
      → latest txs (u64_key id) old v.batch ≡ latest txs (u64_key id) old w.batch
  unfolding fold_ok total_events
  txs_untouched w v index n id [] old h ht he hid =
      ap (λ x. latest txs (u64_key id) old x.batch) (sym (ap (λ x. x.0) (ok-injective h)))
  txs_untouched w v index n id (a ∷ xs) old h ht he hid =
      let (x, step, rest) = >>=-eq-ok (write_transaction P F s height (w, index) a) _ h in
      let (r, eq) = write_transaction-Round P F s height w index a x step in
      let ids = ended-ids P F s r (omega arith) in
      let b = bump-eq w.ids.next_tx_id (omega arith) in
      txs_untouched (ended P F s r) v (index + 1) n id xs old (rw eq at rest)
        (omega (arith, ids, b)) (omega (arith, ids)) (omega (arith, ids, b))
      ∙ ended-txs w index a r (u64_key id) old
      ∙ rw (other_id id w.ids.next_tx_id hid (omega arith))

  pub tx_record-expected :
      (i first_action first_event : ℕ) (a : AppliedTransaction)
      → i < 2 ^ 32
      → length a.ledger_events < 2 ^ 32
      → first_event + length a.ledger_events < 2 ^ 64
      → tx_record height i a
          (consecutive first_action (length a.contract_actions))
          first_event
          (first_event + length a.ledger_events)
        ≡ expected_tx height i first_action first_event a
  unfolding event_count
  tx_record-expected i first_action first_event a hi hl he =
      let position : i % 2 ^ 32 ≡ i = omega (arith, hi) in
      let count : event_count first_event (first_event + length a.ledger_events)
          ≡ length a.ledger_events =
        omega (arith, hl, he) in
      rw (position, count)

  -- After one round the round's own record is there.
  own_record :
      (w : Writer) (index : ℕ) (a : AppliedTransaction) (r : Round P F s height w index a)
      (old : Option Bytes)
      → w.ids.next_event_id + length a.ledger_events < 2 ^ 64
      → w.ids.next_action_id + length a.contract_actions < 2 ^ 64
      → IsRecorded
          (ended P F s r).batch
          old
          index
          w.ids.next_tx_id
          w.ids.next_action_id
          w.ids.next_event_id
          a
  own_record w index a r old he hc =
      ended-txs w index a r (u64_key w.ids.next_tx_id) old
      ∙ rw (bytes_eq_refl (u64_key w.ids.next_tx_id))
          (rw ((ended-ids P F s r he).1, (acted-consecutive P F s r hc).1))

  pub move_record :
      (b : Batch) (old : Option Bytes) (a : AppliedTransaction) {i j id jd c d e f : ℕ}
      → i ≡ j
      → id ≡ jd
      → c ≡ d
      → e ≡ f
      → IsRecorded b old i id c e a
      → IsRecorded b old j jd d f a
  move_record b old a p q r t h = rw (← p, ← q, ← r, ← t) h

  -- The i-th transaction has the i-th id after the first, and its record there.
  pub txs-IsRecorded :
      (w v : Writer) (index n i : ℕ) (xs : List AppliedTransaction) (a : AppliedTransaction)
      (old : Option Bytes)
      → fold_ok (write_transaction P F s height) (w, index) xs ≡ ok (v, n)
      → w.ids.next_tx_id + length xs < 2 ^ 64
      → w.ids.next_event_id + total_events xs < 2 ^ 64
      → w.ids.next_action_id + total_actions xs < 2 ^ 64
      → get_elem? xs i ≡ some a
      → IsRecorded v.batch old
          (index + i)
          (w.ids.next_tx_id + i)
          (w.ids.next_action_id + total_actions (take i xs))
          (w.ids.next_event_id + total_events (take i xs))
          a
  unfolding fold_ok total_events total_actions
  txs-IsRecorded w v index n i [] a old h ht he hc g = absurd (ground arith)
  txs-IsRecorded w v index n zero (x ∷ xs) a old h ht he hc g =
      let (y, step, rest) = >>=-eq-ok (write_transaction P F s height (w, index) x) _ h in
      let (r, eq) = write_transaction-Round P F s height w index x y step in
      let ids = ended-ids P F s r (omega arith) in
      let b = bump-eq w.ids.next_tx_id (omega arith) in
      let kept =
        txs_untouched (ended P F s r) v (index + 1) n w.ids.next_tx_id xs old (rw eq at rest)
          (omega (arith, ids, b)) (omega (arith, ids)) (omega (arith, ids, b)) in
      let same : x ≡ a = ground arith in
      rw (← same) (
        move_record v.batch old x (omega arith) (omega arith) (omega arith) (omega arith)
          (kept ∙ own_record w index x r old (omega arith) (omega arith)))
  txs-IsRecorded w v index n (suc i) (x ∷ xs) a old h ht he hc g =
      let (y, step, rest) = >>=-eq-ok (write_transaction P F s height (w, index) x) _ h in
      let (r, eq) = write_transaction-Round P F s height w index x y step in
      let ids = ended-ids P F s r (omega arith) in
      let acts = ended-action_id P F s r (omega arith) (omega arith) in
      let b = bump-eq w.ids.next_tx_id (omega arith) in
      let there =
        txs-IsRecorded (ended P F s r) v (index + 1) n i xs a old (rw eq at rest)
          (omega (arith, ids, b)) (omega (arith, ids)) (omega (arith, acts)) g in
      move_record v.batch old a (omega arith) (omega (arith, ids, b)) (omega (arith, acts))
        (omega (arith, ids)) there
