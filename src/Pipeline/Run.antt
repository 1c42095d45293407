-- ===== src/Pipeline/Run.antt =====
-- `run` of crates/nightfrost-chain/src/pipeline.rs: its start, and one round of its loop over the
-- blocks. What `LedgerState::unpersist` is called on is kept as a list. The watchdog, the task that
-- follows the node's tip, the garbage collection and the progress reports are not modelled.
use nightfrost.Prelude.{
  ℕ, ◌≡◌, Bool, false, ◌||◌, Option, none, some, List, [], ◌∷◌, ◌++◌, last?, Result, ok, err, ◌>>=◌,
  if◌then◌else◌,
}
use nightfrost.Bytes.{Bytes, bytes_eq}
use nightfrost.Domain.Version.{LedgerVersion, oldest}
use nightfrost.Store.Error.{LedgerError, Error, no_loadable_ledger_state}
use nightfrost.Store.Fjall.{Fjall}
use nightfrost.Store.Reads.{ledger_state_window}
use nightfrost.Store.Records.{
  Postcard, LedgerStateWindow, StoredLedgerVersion, to_stored, from_stored,
}
use nightfrost.Pipeline.Chain.{Block, BlockRef}
use nightfrost.Pipeline.Counters.{load}
use nightfrost.Pipeline.Retention.{push_key}
use nightfrost.Pipeline.Startup.{same_chain, resume_from, seed_timestamp}
use nightfrost.Pipeline.Writer.Defs.{Counters}
use nightfrost.Pipeline.Replay.Facade.{Facade, in_context}
use nightfrost.Pipeline.Replay.Index.{index_block}

-- `LedgerState` and the arena that its states are persisted in. The key of a persisted state loads
-- that state if it is final, that is, at no point within a block; the end of a block and a genesis
-- state are.
pub record Storage (L : Facade) : Type 1 where
  pub version_of : L.State → LedgerVersion
  pub load_state : Bytes → LedgerVersion → Result LedgerError L.State
  pub root_hash_bytes : Bytes → LedgerVersion → Result LedgerError Bytes
  pub IsFinal : L.State → Type 0
  pub finalize-IsFinal :
      (state final : L.State) (time : ℕ)
      → L.finalize_apply_transactions state time ≡ ok final
      → IsFinal final
  pub genesis-IsFinal :
      (raw : Bytes) (version : LedgerVersion) (state : L.State)
      → L.from_genesis raw version ≡ ok state
      → IsFinal state
  pub load-persist :
      (state persisted : L.State) (key : Bytes)
      → IsFinal state
      → L.persist state ≡ ok (persisted, key)
      → load_state key (version_of persisted) ≡ ok persisted

-- `persisted.contains(&hash)`
unfoldable pub is_among : Bytes → List Bytes → Bool
is_among hash [] = false
is_among hash (h ∷ hs) = bytes_eq hash h || is_among hash hs

module _ (L : Facade) (S : Storage L) (P : Postcard) (F : Fjall) where
  pub record Running : Type 0 where
    pub keyspace : F.Keyspace
    pub state : L.State
    pub window : LedgerStateWindow
    pub ids : Counters
    pub parent_block_timestamp : ℕ
    pub unpersisted : LedgerStateWindow

  unfoldable pub is_persisted : List Bytes → Bytes × StoredLedgerVersion → Bool
  is_persisted persisted (key, version) = elim (S.root_hash_bytes key (from_stored version)) [
    | ok hash ↦ is_among hash persisted
    | err e ↦ false
  ]

  -- `window.0.retain(…)`
  unfoldable pub retain : List Bytes → LedgerStateWindow → LedgerStateWindow
  retain persisted [] = []
  retain persisted (entry ∷ window) =
      let rest = retain persisted window in
      if is_persisted persisted entry then entry ∷ rest else rest

  unfoldable pub first_state : Option BlockRef → LedgerStateWindow → Result Error L.State
  first_state resume window = elim (last? window) [
    | some (key, version) ↦ in_context (S.load_state key (from_stored version))
    | none ↦ elim resume [
      | some last ↦ err no_loadable_ledger_state
      | none ↦ in_context (L.new oldest)
    ]
  ]

  -- Up to the first block, after the repair of the root counts: the node's genesis hash and the
  -- roots that are persisted.
  unfoldable pub start : Bytes → List Bytes → F.Keyspace → Result Error (Option BlockRef × Running)
  start node_genesis persisted s = do
    _ ← same_chain P F s node_genesis
    resume ← resume_from P F s
    time ← seed_timestamp P F s
    stored ← ledger_state_window F P s
    let window = retain persisted stored
    state ← first_state resume window
    ids ← load P F s
    ok (
      resume,
      record {
        keyspace = s;
        state = state;
        window = window;
        ids = ids;
        parent_block_timestamp = time;
        unpersisted = [];
      },
    )

  -- One block, with the genesis ledger state where it is the first.
  unfoldable pub run_block : Running → Block → Option Bytes → Result Error Running
  run_block now block genesis_ledger_state = do
    r ←
        index_block L P F now.keyspace block genesis_ledger_state now.state
          now.parent_block_timestamp now.window now.ids
    let kept = push_key now.window r.key (to_stored (S.version_of r.state))
    ok record {
      keyspace = r.keyspace;
      state = r.state;
      window = kept.0;
      ids = r.ids;
      parent_block_timestamp = r.parent_block_timestamp;
      unpersisted = now.unpersisted ++ kept.1;
    }
