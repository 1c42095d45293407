-- ===== src/Backfill/Cached.antt =====
-- The cache of `backfill_contract_events` in crates/nightfrost/src/backfill.rs, against a backfill
-- that reads the actions of every event's transaction from the store.
use nightfrost.Prelude.{
  ℕ, ◌+◌, ◌≤◌, ◌<◌, ◌≡◌, refl, sym, ◌∙◌, ◌⊎◌, inl, inr, false, Option, some, List, [], ◌∷◌, ◌++◌,
  ltb, leb, length, Bool-cases, Option-cases, arith, Result, ok, err, ◌>>=◌, ok_or, ok-injective,
  ◌==◌,
}
use nightfrost.Prelude.Keyed.{lookup, insert as cache_insert, lookup-insert}
use nightfrost.Bytes.{Bytes, read_be}
use nightfrost.Store.Error.{
  Error, panicked, bad_event_id, missing_tx, contract_event_without_address,
}
use nightfrost.Store.Fjall.{
  Fjall, Partition, tag, insert, Batch, contract_actions, txs, ledger_events, events_by_contract,
  latest, latest-append,
}
use nightfrost.Store.Ordered.{Entry, Ordered}
use nightfrost.Store.Reads.{tx}
use nightfrost.Store.Records.{Postcard, ContractActionRecord, EventRecord}
use nightfrost.Backfill.ContractStates.{commit_every}
use nightfrost.Backfill.ContractEvents.{
  BackfillCounts, cache_limit, ActionsCache, id_key, Backfill, read_actions, tx_actions, remember,
  fill, is_contract, Source, cached, index_address, rewrite_event, correlated_id, commit_batch,
  same_id, scanned, correlate_event, backfill_event, backfill_events, backfill_start, commit_rest,
  backfill_contract_events,
}
use nightfrost.Backfill.Steps.{write_elsewhere}

Result-cases :
    {A : Type 0} (r : Result Error A) → ((e : Error) × (r ≡ err e)) ⊎ ((a : A) × (r ≡ ok a))
Result-cases (err e) = inl (e, refl)
Result-cases (ok a) = inr (a, refl)

>>=-cong :
    {A B : Type 0} (r : Result Error A) (f g : A → Result Error B)
    → ((a : A) → f a ≡ g a)
    → (r >>= f) ≡ (r >>= g)
>>=-cong (err e) f g h = refl
>>=-cong (ok a) f g h = h a

-- A partition that a batch does not write.
unfoldable Spares : Partition → Batch → Type 0
Spares p batch = (k : Bytes) (old : Option Bytes) → latest p k old batch ≡ old

Spares-insert :
    (p q : Partition) (j v : Bytes) (batch : Batch)
    → (tag p == tag q) ≡ false
    → Spares p batch
    → Spares p (batch ++ (insert q j v ∷ []))
unfolding Spares latest
Spares-insert p q j v batch elsewhere h = λ k old.
    latest-append p k old batch (insert q j v ∷ [])
    ∙ write_elsewhere p q k j v (latest p k old batch) elsewhere
    ∙ h k old

module _ (P : Postcard) (F : Fjall) where
  -- The actions are read for every event.
  abbrev pub uncached : Source P F
  uncached s tx_id cache = do actions ← tx_actions P F s tx_id; ok (actions, cache)

  -- The backfill without a cache.
  unfoldable pub backfill_uncached :
      Ordered F → F.Keyspace → Result Error (F.Keyspace × BackfillCounts)
  backfill_uncached O s = do
    b ← backfill_events P F uncached (O.entries s ledger_events) (backfill_start P F s) []
    ok (commit_rest P F b)

  unfoldable SameReads : F.Keyspace → F.Keyspace → Type 0
  SameReads s t =
      ((k : Bytes) → F.get t txs k ≡ F.get s txs k)
      × ((k : Bytes) → F.get t contract_actions k ≡ F.get s contract_actions k)

  read_actions-SameReads :
      (s t : F.Keyspace) (ids : List ℕ)
      → SameReads s t
      → read_actions P F t ids ≡ read_actions P F s ids
  unfolding SameReads read_actions
  read_actions-SameReads s t [] same = refl
  read_actions-SameReads s t (id ∷ ids) same = rw (same.1, read_actions-SameReads s t ids same)

  tx_actions-SameReads :
      (s t : F.Keyspace) (id : ℕ) → SameReads s t → tx_actions P F t id ≡ tx_actions P F s id
  unfolding SameReads tx_actions tx
  tx_actions-SameReads s t id same = rw same.0 (
      >>=-cong (tx F P s id) _ _ (λ found.
        >>=-cong (ok_or found missing_tx) _ _
          (λ record_in. read_actions-SameReads s t record_in.contract_action_ids same)))

  -- What the cache says of a transaction is what the store says.
  unfoldable IsFaithful : F.Keyspace → ActionsCache → Type 0
  IsFaithful s cache =
      (id : ℕ) (actions : List (ℕ × ContractActionRecord))
      → lookup id cache ≡ some actions
      → tx_actions P F s id ≡ ok actions

  record IsReady (b : Backfill P F) (cache : ActionsCache) : Type 0 where
    faithful : IsFaithful b.keyspace cache
    spares_txs : Spares txs b.batch
    spares_actions : Spares contract_actions b.batch

  length-cache_insert :
      (id : ℕ) (actions : List (ℕ × ContractActionRecord)) (cache : ActionsCache)
      → length (cache_insert id actions cache) ≤ length cache + 1
  unfolding cache_insert
  length-cache_insert id actions [] = ground arith
  length-cache_insert id actions ((j, other) ∷ cache) =
      ground (arith, length-cache_insert id actions cache)

  -- While the cache has room, it yields what is read.
  cached-uncached :
      (s : F.Keyspace) (id : ℕ) (cache : ActionsCache) (actions : List (ℕ × ContractActionRecord))
      → IsFaithful s cache
      → length cache < cache_limit
      → tx_actions P F s id ≡ ok actions
      → (later : ActionsCache) × (cached P F s id cache ≡ ok (actions, later))
        × IsFaithful s later
        × (length later ≤ length cache + 1)
  unfolding cached fill remember IsFaithful
  cached-uncached s id cache actions faithful room read = elim (Option-cases (lookup id cache)) [
    | inl absent ↦
        let grown = cache_insert id actions cache in
        let bound = length-cache_insert id actions cache in
        let fits : ltb cache_limit (length grown) ≡ false = ground (arith, bound, room) in
        let found : lookup id grown ≡ some actions =
          ground (arith, lookup-insert id id actions cache) in
        (
          grown,
          rw (absent, read, fits, found, cached, fill, remember),
          λ j others there.
              let at = lookup-insert id j actions cache in
              elim (Bool-cases (id == j)) [
                | inl same ↦ ground (arith, at, there, same, read)
                | inr other ↦ faithful j others (ground (arith, at, there, other))
              ],
          bound,
        )
    | inr (held, there) ↦
        let same = ok-injective (sym (faithful id held there) ∙ read) in
        (cache, rw (there, cached, fill) (rw (there, same)), faithful, ground arith)
  ]

  cached-err :
      (s : F.Keyspace) (id : ℕ) (cache : ActionsCache) (e : Error)
      → IsFaithful s cache
      → tx_actions P F s id ≡ err e
      → cached P F s id cache ≡ err e
  unfolding cached fill IsFaithful
  cached-err s id cache e faithful read = elim (Option-cases (lookup id cache)) [
    | inl absent ↦ rw (absent, read, cached, fill)
    | inr (held, there) ↦ let read_too = faithful id held there in cc
  ]

  scanned-IsReady :
      (b : Backfill P F) (cache : ActionsCache) → IsReady b cache → IsReady (scanned P F b) cache
  unfolding scanned
  scanned-IsReady b cache h = record {
    faithful = h.faithful;
    spares_txs = h.spares_txs;
    spares_actions = h.spares_actions;
  }

  index_address-IsReady :
      (event_id : ℕ) (address : Bytes) (b : Backfill P F) (cache : ActionsCache)
      → IsReady b cache
      → IsReady (index_address P F event_id address b) cache
  unfolding index_address tag
  index_address-IsReady event_id address b cache h = record {
    faithful = h.faithful;
    spares_txs = Spares-insert txs events_by_contract _ _ b.batch refl h.spares_txs;
    spares_actions =
        Spares-insert contract_actions events_by_contract _ _ b.batch refl h.spares_actions;
  }

  rewrite_event-IsReady :
      (key : Bytes) (record_in : EventRecord) (correlated : Option ℕ) (b : Backfill P F)
      (cache : ActionsCache)
      → IsReady b cache
      → IsReady (rewrite_event P F key record_in correlated b) cache
  unfolding rewrite_event tag
  rewrite_event-IsReady key record_in correlated b cache h =
      elim (Bool-cases (same_id record_in.event.contract_action_id correlated)) [
        | inl same ↦
            rw (same, rewrite_event)
              (record {
                faithful = h.faithful;
                spares_txs = h.spares_txs;
                spares_actions = h.spares_actions;
              })
        | inr other ↦
            rw (other, rewrite_event)
              (record {
                faithful = h.faithful;
                spares_txs = Spares-insert txs ledger_events _ _ b.batch refl h.spares_txs;
                spares_actions =
                    Spares-insert contract_actions ledger_events _ _ b.batch refl h.spares_actions;
              })
      ]

  commit_batch-IsReady :
      (b : Backfill P F) (cache : ActionsCache)
      → IsReady b cache
      → IsReady (commit_batch P F b) cache
  unfolding commit_batch SameReads IsFaithful Spares latest
  commit_batch-IsReady b cache h = elim (Bool-cases (leb commit_every b.pending)) [
    | inr room ↦ rw (room, commit_batch) h
    | inl full ↦
        let same : SameReads b.keyspace (F.commit b.keyspace b.batch) = (
          λ k. F.get-commit b.keyspace b.batch txs k ∙ h.spares_txs k _,
          λ k. F.get-commit b.keyspace b.batch contract_actions k ∙ h.spares_actions k _,
        ) in
        rw (full, commit_batch)
          (record {
            faithful = λ id actions there.
                tx_actions-SameReads b.keyspace (F.commit b.keyspace b.batch) id same
                ∙ h.faithful id actions there;
            spares_txs = λ k old. refl;
            spares_actions = λ k old. refl;
          })
  ]

  -- With the cache and without, a step fails alike or goes on from the same place.
  unfoldable Agrees :
      ActionsCache
      → Result Error (Backfill P F × ActionsCache)
      → Result Error (Backfill P F × ActionsCache)
      → Type 0
  Agrees cache x y =
      ((e : Error) × (x ≡ err e) × (y ≡ err e))
      ⊎ ((next : Backfill P F) × (later : ActionsCache) × (x ≡ ok (next, later))
          × (y ≡ ok (next, []))
          × IsReady next later
          × (length later ≤ length cache + 1))

  correlate_event-Agrees :
      (event_id : ℕ) (key : Bytes) (r : EventRecord) (b : Backfill P F) (cache : ActionsCache)
      → IsReady b cache
      → length cache < cache_limit
      → Agrees cache
          (correlate_event P F (cached P F) event_id key r b cache)
          (correlate_event P F uncached event_id key r b [])
  unfolding Agrees index_address correlate_event
  correlate_event-Agrees event_id key r b cache ready room =
      elim (Bool-cases (is_contract r.event.grouping)) [
        | inr other ↦ inr (
          b,
          cache,
          rw (other, correlate_event),
          rw (other, correlate_event),
          ready,
          ground arith,
        )
        | inl contract ↦ elim (Option-cases r.event.contract_address) [
          | inl nowhere ↦ inl (
            contract_event_without_address,
            rw (contract, nowhere, correlate_event),
            rw (contract, nowhere, correlate_event),
          )
          | inr (address, at) ↦ elim (Result-cases (tx_actions P F b.keyspace r.tx_id)) [
            | inl (e, failed) ↦ inl (
              e,
              rw (
                contract,
                at,
                cached-err b.keyspace r.tx_id cache e ready.faithful failed,
                correlate_event,
              ),
              rw (contract, at, failed, correlate_event),
            )
            | inr (actions, read) ↦
                let (later, held, faithful, bound) =
                  cached-uncached b.keyspace r.tx_id cache actions ready.faithful room read in
                inr (
                  _,
                  later,
                  rw (contract, at, held, correlate_event),
                  rw (contract, at, read, correlate_event),
                  commit_batch-IsReady _ later (
                      rewrite_event-IsReady key r (correlated_id P F r actions) _ later (
                        index_address-IsReady event_id address b later (record {
                          faithful = faithful;
                          spares_txs = ready.spares_txs;
                          spares_actions = ready.spares_actions;
                        }))),
                  bound,
                )
          ]
        ]
      ]

  backfill_event-Agrees :
      (entry : Entry) (b : Backfill P F) (cache : ActionsCache)
      → IsReady b cache
      → length cache < cache_limit
      → Agrees cache
          (backfill_event P F (cached P F) entry b cache)
          (backfill_event P F uncached entry b [])
  unfolding Agrees backfill_event
  backfill_event-Agrees (key, value) b cache ready room = elim (Option-cases (read_be 8 key)) [
    | inl short ↦ inl (bad_event_id, rw (short, backfill_event), rw (short, backfill_event))
    | inr (id, key_id) ↦ elim (Option-cases (P.event.decode value)) [
      | inl bad ↦ inl (panicked, rw (key_id, bad, backfill_event), rw (key_id, bad, backfill_event))
      | inr (r, good) ↦
          rw (key_id, good, backfill_event)
            (correlate_event-Agrees id key r (scanned P F b) cache (scanned-IsReady b cache ready)
              room)
    ]
  ]

  backfill_events-uncached :
      (entries : List Entry) (b : Backfill P F) (cache : ActionsCache)
      → IsReady b cache
      → length cache + length entries ≤ cache_limit
      → backfill_events P F (cached P F) entries b cache ≡ backfill_events P F uncached entries b []
  unfolding Agrees backfill_events
  backfill_events-uncached [] b cache ready room = refl
  backfill_events-uncached (entry ∷ entries) b cache ready room =
      elim (backfill_event-Agrees entry b cache ready (ground arith)) [
        | inl (e, failed, failed_too) ↦ rw (failed, failed_too)
        | inr (next, later, done, done_too, ready_next, bound) ↦
            rw (done, done_too)
              (backfill_events-uncached entries next later ready_next (ground (arith, bound, room)))
      ]

  -- While the store has at most 10000 events, the cache of the backfill changes nothing: it ends as
  -- a backfill that reads the actions of every event's transaction from the store, with the same
  -- store and counts or with the same error.
  pub backfill_contract_events-uncached :
      (O : Ordered F) (s : F.Keyspace)
      → length (O.entries s ledger_events) ≤ cache_limit
      → backfill_contract_events P F O s ≡ backfill_uncached O s
  unfolding backfill_contract_events backfill_uncached Spares latest IsFaithful lookup
  backfill_contract_events-uncached O s few =
      let empty : IsReady (backfill_start P F s) [] = record {
        faithful = λ id actions there. cc;
        spares_txs = λ k old. refl;
        spares_actions = λ k old. refl;
      } in
      rw (
        backfill_events-uncached (O.entries s ledger_events) (backfill_start P F s) [] empty
          (ground (arith, few)))
