-- ===== src/Pipeline/Restarted.antt =====
-- `run` of crates/nightfrost-chain/src/pipeline.rs on the ledger states of
-- crates/nightfrost-core/src/domain/ledger/ledger_state.rs: what a restart loads.
use nightfrost.Prelude.{
  ℕ, ◌≡◌, refl, ap, sym, subst, Option, some, List, [], ok, >>=-eq-ok, ok-injective,
}
use nightfrost.Bytes.{Bytes}
use nightfrost.Domain.Version.{LedgerVersion, ledger_version}
use nightfrost.Store.Fjall.{Fjall}
use nightfrost.Store.Keys.{IsU64}
use nightfrost.Store.Records.{Postcard}
use nightfrost.Pipeline.Chain.{Block, block_ref}
use nightfrost.Pipeline.Startup.{same_chain}
use nightfrost.Pipeline.Run.{Storage, Running, retain, start, run_block}
use nightfrost.Pipeline.Restart.{start-run_block}
use nightfrost.Ledger.State.{
  no_cost, CostModel, Crate, LedgerState, v8, v9, from_genesis, load, state_version, persist,
  root_hash_bytes, finalize_inner, finalize_apply_transactions, Application, ledger_facade,
}

module _ (K : CostModel) (C8 C9 : Crate K) where
  -- No part of a block is counted.
  abbrev pub IsEmptied : LedgerState K C8 C9 → Type 0
  IsEmptied (v8 inner c) = c ≡ no_cost
  IsEmptied (v9 inner c) = c ≡ no_cost

  pub finalize-IsEmptied :
      (state final : LedgerState K C8 C9) (time : ℕ)
      → finalize_apply_transactions K C8 C9 state time ≡ ok final
      → IsEmptied final
  unfolding finalize_apply_transactions
  finalize-IsEmptied (v8 inner c) final time h =
      let (finished, _, done) = >>=-eq-ok (finalize_inner K C8 inner c time) _ h in
      subst IsEmptied (ok-injective done) refl
  finalize-IsEmptied (v9 inner c) final time h =
      let (finished, _, done) = >>=-eq-ok (finalize_inner K C9 inner c time) _ h in
      subst IsEmptied (ok-injective done) refl

  pub genesis-IsEmptied :
      (raw : Bytes) (version : LedgerVersion) (state : LedgerState K C8 C9)
      → from_genesis K C8 C9 raw version ≡ ok state
      → IsEmptied state
  unfolding from_genesis
  genesis-IsEmptied raw LedgerVersion.v8 state h =
      let (inner, _, done) = >>=-eq-ok (C8.tagged_deserialize raw) _ h in
      subst IsEmptied (ok-injective done) refl
  genesis-IsEmptied raw LedgerVersion.v9 state h =
      let (inner, _, done) = >>=-eq-ok (C9.tagged_deserialize raw) _ h in
      subst IsEmptied (ok-injective done) refl

  -- A persisted state is loaded by its key, if its block's fullness is none.
  abbrev pub Loads : LedgerState K C8 C9 → Bytes → Type 0
  Loads persisted key = load K C8 C9 key (state_version K C8 C9 persisted) ≡ ok persisted

  pub load-persist :
      (state persisted : LedgerState K C8 C9) (key : Bytes)
      → IsEmptied state
      → persist K C8 C9 state ≡ ok (persisted, key)
      → Loads persisted key
  unfolding persist load state_version
  load-persist (v8 inner c) persisted key empty h =
      let (made, keyed, done) = >>=-eq-ok (C8.persist_key inner) _ h in
      subst (λ (x : LedgerState K C8 C9 × Bytes). Loads x.0 x.1) (ok-injective done)
        (rw (C8.get_lazy-persist_key inner made keyed) (ap (λ f. ok (v8 inner f)) (sym empty)))
  load-persist (v9 inner c) persisted key empty h =
      let (made, keyed, done) = >>=-eq-ok (C9.persist_key inner) _ h in
      subst (λ (x : LedgerState K C8 C9 × Bytes). Loads x.0 x.1) (ok-injective done)
        (rw (C9.get_lazy-persist_key inner made keyed) (ap (λ f. ok (v9 inner f)) (sym empty)))

  -- How the pipeline stores and loads ledger states.
  unfoldable pub ledger_storage : (A : Application K C8 C9) → Storage (ledger_facade K C8 C9 A)
  ledger_storage A = record {
    version_of = state_version K C8 C9;
    load_state = load K C8 C9;
    root_hash_bytes = root_hash_bytes K C8 C9;
    IsFinal = IsEmptied;
    finalize-IsFinal = finalize-IsEmptied;
    genesis-IsFinal = genesis-IsEmptied;
    load-persist = load-persist;
  }

  module _ (A : Application K C8 C9) (P : Postcard) (F : Fjall) where
    abbrev pub LedgerRunning : Type 0
    LedgerRunning = Running (ledger_facade K C8 C9 A) (ledger_storage A) P F

    -- A restart after a block finds what the pipeline had: it resumes behind that very block, with
    -- the same store, ledger state, window, counters and parent time, and nothing unpersisted yet.
    -- The store belongs to the node's chain, the roots of the window's keys are persisted, the ledger
    -- state has the block's version, and heights, times and counters are u64s.
    pub start-run_block_ledger :
        (b : Block) (node_genesis : Bytes) (persisted : List Bytes) (now later : LedgerRunning)
        (raw : Option Bytes)
        → IsU64 b.height
        → IsU64 b.timestamp
        → run_block (ledger_facade K C8 C9 A) (ledger_storage A) P F now b raw ≡ ok later
        → same_chain P F later.keyspace node_genesis ≡ ok tt
        → retain (ledger_facade K C8 C9 A) (ledger_storage A) P F persisted later.window
          ≡ later.window
        → state_version K C8 C9 later.state ≡ ledger_version b.protocol_version
        → IsU64 later.ids.next_tx_id
        → IsU64 later.ids.next_action_id
        → IsU64 later.ids.next_event_id
        → start
            (ledger_facade K C8 C9 A)
            (ledger_storage A)
            P
            F
            node_genesis
            persisted
            later.keyspace
          ≡ ok (
            some (block_ref b),
            record {
              keyspace = later.keyspace;
              state = later.state;
              window = later.window;
              ids = later.ids;
              parent_block_timestamp = later.parent_block_timestamp;
              unpersisted = [];
            },
          )
    unfolding ledger_storage
    start-run_block_ledger b node_genesis persisted now later raw hh ht =
        start-run_block (ledger_facade K C8 C9 A) (ledger_storage A) P F b node_genesis persisted hh
          ht now later raw
