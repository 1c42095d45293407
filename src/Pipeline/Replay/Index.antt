-- ===== src/Pipeline/Replay/Index.antt =====
-- `index_block` of crates/nightfrost-chain/src/pipeline.rs.
use nightfrost.Prelude.{
  ℕ, Bool, true, false, ◌&&◌, Option, none, some, List, [], ◌∷◌, ltb, ◌==◌, not, Result, ok, err,
  ok_or, ◌>>=◌, ◌>>◌, if◌then◌else◌,
}
use nightfrost.Bytes.{Bytes, bytes_eq}
use nightfrost.Domain.Version.{ledger_version}
use nightfrost.Store.Error.{
  Error, genesis_without_ledger_state, genesis_without_root, ledger_state_root_mismatch,
  zswap_state_root_mismatch,
}
use nightfrost.Store.Fjall.{Fjall}
use nightfrost.Store.Records.{Postcard, LedgerStateWindow}
use nightfrost.Pipeline.Chain.{Block, Transaction, regular, system}
use nightfrost.Pipeline.Writer.Defs.{Counters, AppliedTransaction}
use nightfrost.Pipeline.Writer.Commit.{write_block}
use nightfrost.Pipeline.Replay.Facade.{Facade, in_context}
use nightfrost.Pipeline.Replay.Apply.{apply_transaction}

-- The time of the parent block; 0 stands for none.
unfoldable pub parent_time : ℕ → Block → ℕ
parent_time stored block = if stored == 0 then block.timestamp else stored

unfoldable pub is_regular : Transaction → Bool
is_regular (regular tx) = true
is_regular (system tx) = false

-- `if !test { bail!(…) }`
unfoldable pub check : Bool → Error → Result Error (Unit {0})
check test e = if test then ok tt else err e

-- The root that the node gave for the block, if it gave one, against the replay's.
unfoldable pub root_matches : Option Bytes → Bytes → Bool
root_matches none replayed = true
root_matches (some node_root) replayed = bytes_eq node_root replayed

module _ (L : Facade) where
  -- The state on which the block starts.
  unfoldable pub start_state : Block → L.State → Result Error L.State
  start_state block state =
      if block.height == 0
      then in_context (L.new (ledger_version block.protocol_version))
      else in_context (L.translate state (ledger_version block.protocol_version))

  -- The state to apply the transactions to, and the genesis state that replaces it afterwards.
  unfoldable pub genesis : Block → Option Bytes → L.State → Result Error (L.State × Option L.State)
  genesis block raw state =
      if block.height == 0
      then (do
        given ← ok_or raw genesis_without_ledger_state
        genesis_state ← in_context (L.from_genesis given (ledger_version block.protocol_version))
        genesis_root ← in_context (L.root genesis_state)
        node_root ← ok_or block.ledger_state_root genesis_without_root
        (if bytes_eq node_root genesis_root
            then ok (state, some genesis_state)
            else ok (genesis_state, none)))
      else ok (state, none)

  -- The transaction loop; only the first regular transaction of a later block is bumped.
  unfoldable pub apply_transactions :
      Block
      → ℕ
      → Bool
      → L.State
      → List Transaction
      → Result Error (L.State × List AppliedTransaction)
  unfolding is_regular
  apply_transactions block time first_regular state [] = ok (state, [])
  apply_transactions block time first_regular state (tx ∷ txs) = do
    (after, applied) ← apply_transaction L state tx block time (ltb 0 block.height && first_regular)
    (final, derived) ←
        apply_transactions block time (first_regular && not (is_regular tx)) after txs
    ok (final, applied ∷ derived)

  -- `if let Some(genesis_state) = genesis_state { ledger_state = genesis_state }`
  abbrev pub or_state : Option L.State → L.State → L.State
  or_state none state = state
  or_state (some genesis_state) state = genesis_state

  -- The replay of a block, the state of its end with both roots checked.
  unfoldable pub replay :
      Block → Option Bytes → L.State → ℕ → Result Error (L.State × List AppliedTransaction)
  replay block genesis_ledger_state state stored_time = do
    started ← start_state block state
    let time = parent_time stored_time block
    (base, genesis_state) ← genesis block genesis_ledger_state started
    (applied, derived) ← apply_transactions block time true base block.transactions
    finished ← in_context (L.finalize_apply_transactions applied block.timestamp)
    let final = or_state genesis_state finished
    ledger_state_root ← in_context (L.root final)
    check (root_matches block.ledger_state_root ledger_state_root) ledger_state_root_mismatch
    check (bytes_eq (L.zswap_merkle_tree_root final) block.zswap_merkle_tree_root)
        zswap_state_root_mismatch
    ok (final, derived)

  -- What `index_block` hands back: the persisted state and its key, the keyspace, the counters and
  -- the time that the next block has as its parent's.
  pub record Indexed (F : Fjall) : Type 0 where
    pub state : L.State
    pub key : Bytes
    pub keyspace : F.Keyspace
    pub ids : Counters
    pub parent_block_timestamp : ℕ

  module _ (P : Postcard) (F : Fjall) where
    unfoldable pub index_block :
        F.Keyspace
        → Block
        → Option Bytes
        → L.State
        → ℕ
        → LedgerStateWindow
        → Counters
        → Result Error (Indexed F)
    index_block s block genesis_ledger_state state stored_time window ids = do
      (final, derived) ← replay block genesis_ledger_state state stored_time
      (persisted, key) ← in_context (L.persist final)
      (s', ids') ← write_block P F s block derived key window ids
      ok record {
        state = persisted;
        key = key;
        keyspace = s';
        ids = ids';
        parent_block_timestamp = block.timestamp;
      }
