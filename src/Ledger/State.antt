-- ===== src/Ledger/State.antt =====
-- `LedgerState` of crates/nightfrost-core/src/domain/ledger/ledger_state.rs: the ledger states of the
-- two versions, how full the current block is, and how both are stored, loaded and finalized. The
-- midnight-ledger and storage-core crates, once for each version, are the parameter `Crate`, the
-- cost model is `CostModel`, and what applies a transaction is `Application`.
use nightfrost.Prelude.{ℕ, ◌≡◌, min, List, [], Result, ok, err, ◌>>=◌}
use nightfrost.Bytes.{Bytes}
use nightfrost.Domain.{
  ContractBalance, ApplyRegularTransactionOutcome, ApplySystemTransactionOutcome,
}
use nightfrost.Domain.Version.{LedgerVersion}
use nightfrost.Store.Error.{LedgerError, other_ledger_error}
use nightfrost.Pipeline.Replay.Facade.{Facade}

pub record SyntheticCost : Type 0 where
  pub read_time : ℕ
  pub compute_time : ℕ
  pub block_usage : ℕ
  pub bytes_written : ℕ
  pub bytes_churned : ℕ

-- `Default::default()`
abbrev pub no_cost : SyntheticCost
no_cost = record {
  read_time = 0;
  compute_time = 0;
  block_usage = 0;
  bytes_written = 0;
  bytes_churned = 0;
}

pub record NormalizedCost (X : Type 0) : Type 0 where
  pub read_time : X
  pub compute_time : X
  pub block_usage : X
  pub bytes_written : X
  pub bytes_churned : X

-- `normalize` does not fail for a cost that is within the limits.
pub record CostModel : Type 1 where
  pub FixedPoint : Type 0
  pub max : FixedPoint → FixedPoint → FixedPoint
  pub normalize : SyntheticCost → SyntheticCost → NormalizedCost FixedPoint

-- One version of the ledger, and of the arena that its states are in: the key of a state that is
-- allocated, and of one that is persisted too, which is found again under it while its root lasts.
pub record Crate (K : CostModel) : Type 1 where
  pub Inner : Type 0
  pub new : Inner
  pub tagged_deserialize : Bytes → Result LedgerError Inner
  pub get_lazy : Bytes → Result LedgerError Inner
  pub alloc_key : Inner → Result LedgerError Bytes
  pub persist_key : Inner → Result LedgerError Bytes
  pub get_lazy-persist_key :
      (inner : Inner) (key : Bytes) → persist_key inner ≡ ok key → get_lazy key ≡ ok inner
  pub root_hash : Bytes → Result LedgerError Bytes
  pub block_limits : Inner → SyntheticCost
  pub post_block_update :
      Inner → ℕ → NormalizedCost K.FixedPoint → K.FixedPoint → Result LedgerError Inner
  pub zswap_merkle_tree_root : Inner → Bytes
  pub zswap_first_free : Inner → ℕ

module _ (K : CostModel) where
  -- The cost of the block, cut to its limits.
  unfoldable pub clamp_and_normalize : SyntheticCost → SyntheticCost → NormalizedCost K.FixedPoint
  clamp_and_normalize cost limits =
      K.normalize
        (record {
          read_time = min cost.read_time limits.read_time;
          compute_time = min cost.compute_time limits.compute_time;
          block_usage = min cost.block_usage limits.block_usage;
          bytes_written = min cost.bytes_written limits.bytes_written;
          bytes_churned = min cost.bytes_churned limits.bytes_churned;
        })
        limits

  unfoldable pub overall_fullness : NormalizedCost K.FixedPoint → K.FixedPoint
  overall_fullness c =
      K.max (K.max (K.max c.read_time c.compute_time) c.block_usage)
        (K.max c.bytes_written c.bytes_churned)

  -- The arm of one version in `finalize_apply_transactions`.
  unfoldable pub finalize_inner :
      (C : Crate K) → C.Inner → SyntheticCost → ℕ → Result LedgerError C.Inner
  finalize_inner C inner block_fullness block_timestamp =
      let fullness = clamp_and_normalize block_fullness (C.block_limits inner) in
      C.post_block_update inner block_timestamp fullness (overall_fullness fullness)

  module _ (C8 C9 : Crate K) where
    -- The state of one version, and the block's fullness.
    pub data LedgerState : Type 0 where
      v8 : C8.Inner → SyntheticCost → LedgerState
      v9 : C9.Inner → SyntheticCost → LedgerState

    unfoldable pub new : LedgerVersion → Result LedgerError LedgerState
    new LedgerVersion.v8 = ok (v8 C8.new no_cost)
    new LedgerVersion.v9 = ok (v9 C9.new no_cost)

    unfoldable pub from_genesis : Bytes → LedgerVersion → Result LedgerError LedgerState
    from_genesis raw LedgerVersion.v8 = do inner ← C8.tagged_deserialize raw; ok (v8 inner no_cost)
    from_genesis raw LedgerVersion.v9 = do inner ← C9.tagged_deserialize raw; ok (v9 inner no_cost)

    unfoldable pub load : Bytes → LedgerVersion → Result LedgerError LedgerState
    load key LedgerVersion.v8 = do inner ← C8.get_lazy key; ok (v8 inner no_cost)
    load key LedgerVersion.v9 = do inner ← C9.get_lazy key; ok (v9 inner no_cost)

    -- No state changes its version.
    unfoldable pub translate : LedgerState → LedgerVersion → Result LedgerError LedgerState
    translate (v8 inner c) LedgerVersion.v8 = ok (v8 inner c)
    translate (v8 inner c) LedgerVersion.v9 = err (other_ledger_error [])
    translate (v9 inner c) LedgerVersion.v8 = err (other_ledger_error [])
    translate (v9 inner c) LedgerVersion.v9 = ok (v9 inner c)

    unfoldable pub state_version : LedgerState → LedgerVersion
    state_version (v8 inner c) = LedgerVersion.v8
    state_version (v9 inner c) = LedgerVersion.v9

    unfoldable pub root : LedgerState → Result LedgerError Bytes
    root (v8 inner c) = C8.alloc_key inner
    root (v9 inner c) = C9.alloc_key inner

    -- The fullness is handed on, but not persisted.
    unfoldable pub persist : LedgerState → Result LedgerError (LedgerState × Bytes)
    persist (v8 inner c) = do key ← C8.persist_key inner; ok (v8 inner c, key)
    persist (v9 inner c) = do key ← C9.persist_key inner; ok (v9 inner c, key)

    unfoldable pub root_hash_bytes : Bytes → LedgerVersion → Result LedgerError Bytes
    root_hash_bytes key LedgerVersion.v8 = C8.root_hash key
    root_hash_bytes key LedgerVersion.v9 = C9.root_hash key

    unfoldable pub finalize_apply_transactions : LedgerState → ℕ → Result LedgerError LedgerState
    finalize_apply_transactions (v8 inner c) block_timestamp = do
      finished ← finalize_inner C8 inner c block_timestamp
      ok (v8 finished no_cost)
    finalize_apply_transactions (v9 inner c) block_timestamp = do
      finished ← finalize_inner C9 inner c block_timestamp
      ok (v9 finished no_cost)

    unfoldable pub zswap_merkle_tree_root : LedgerState → Bytes
    zswap_merkle_tree_root (v8 inner c) = C8.zswap_merkle_tree_root inner
    zswap_merkle_tree_root (v9 inner c) = C9.zswap_merkle_tree_root inner

    unfoldable pub zswap_first_free : LedgerState → ℕ
    zswap_first_free (v8 inner c) = C8.zswap_first_free inner
    zswap_first_free (v9 inner c) = C9.zswap_first_free inner

    -- The application of transactions, contract states and SHA-256.
    pub record Application : Type 0 where
      pub apply_regular_transaction :
          LedgerState
          → Bytes
          → Bytes
          → ℕ
          → ℕ
          → ℕ
          → Result LedgerError (LedgerState × ApplyRegularTransactionOutcome)
      pub apply_system_transaction :
          LedgerState → Bytes → ℕ → Result LedgerError (LedgerState × ApplySystemTransactionOutcome)
      pub contract_balances : Bytes → LedgerVersion → Result LedgerError (List ContractBalance)
      pub sha256 : Bytes → Bytes

    -- The ledger state as the pipeline uses it.
    abbrev pub ledger_facade : Application → Facade
    ledger_facade A = record {
      State = LedgerState;
      new = new;
      from_genesis = from_genesis;
      translate = translate;
      root = root;
      zswap_merkle_tree_root = zswap_merkle_tree_root;
      zswap_first_free = zswap_first_free;
      apply_regular_transaction = A.apply_regular_transaction;
      apply_system_transaction = A.apply_system_transaction;
      finalize_apply_transactions = finalize_apply_transactions;
      persist = persist;
      contract_balances = A.contract_balances;
      sha256 = A.sha256;
    }
