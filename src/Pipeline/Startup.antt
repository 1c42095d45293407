-- ===== src/Pipeline/Startup.antt =====
-- The start of `run` of crates/nightfrost-chain/src/pipeline.rs: where indexing resumes.
use nightfrost.Prelude.{ℕ, ◌≡◌, Option, none, some, List, Result, ok, err, ◌>>=◌, if◌then◌else◌}
use nightfrost.Bytes.{Bytes, bytes_eq}
use nightfrost.Store.Error.{Error, different_chain, last_block_missing}
use nightfrost.Store.Fjall.{Fjall, meta}
use nightfrost.Store.Keys.{IsU64}
use nightfrost.Store.Reads.{last_indexed_height, tip_timestamp, block}
use nightfrost.Store.Records.{Postcard, LedgerStateWindow, genesis_hash_key}
use nightfrost.Pipeline.Chain.{Block, BlockRef, block_ref}
use nightfrost.Pipeline.Writer.Defs.{Counters, AppliedTransaction}
use nightfrost.Pipeline.Writer.Commit.{write_block}
use nightfrost.Pipeline.Writer.Tip.{tip_after_write}

module _ (P : Postcard) (F : Fjall) (s : F.Keyspace) where
  -- The data directory belongs to the node's chain, or is new.
  unfoldable pub same_chain : Bytes → Result Error (Unit {0})
  same_chain node_genesis = elim (F.get s meta genesis_hash_key) [
    | none ↦ ok tt
    | some stored ↦ (if bytes_eq stored node_genesis then ok tt else err different_chain)
  ]

  unfoldable pub resume_from : Result Error (Option BlockRef)
  resume_from = do
    last_height ← last_indexed_height F P s
    elim last_height [
      | none ↦ ok none
      | some height ↦ (do
        found ← block F P s height
        elim found [
          | none ↦ err last_block_missing
          | some r ↦ ok (some record { hash = r.hash; height = height })
        ])
    ]

  -- The time of the block before the next one, 0 in a new store.
  unfoldable pub seed_timestamp : Result Error ℕ
  seed_timestamp = do
    stored ← tip_timestamp F P s
    elim stored [ none ↦ ok 0 | some time ↦ ok time ]

module _ (P : Postcard) (F : Fjall) (s s' : F.Keyspace) (b : Block) (xs : List AppliedTransaction)
    (key : Bytes) (window : LedgerStateWindow) (ids ids' : Counters)
    (written : write_block P F s b xs key window ids ≡ ok (s', ids')) where
  -- A restart after a block was written resumes behind that very block, with its time as the time
  -- of the next block's parent. Its height and time are u64s.
  pub resume_after_write :
      IsU64 b.height
      → IsU64 b.timestamp
      → (resume_from P F s' ≡ ok (some (block_ref b))) × (seed_timestamp P F s' ≡ ok b.timestamp)
  unfolding resume_from seed_timestamp block_ref
  resume_after_write hh ht =
      let (height, time, stored, _) =
        tip_after_write P F s s' b xs key window ids ids' written hh ht in
      (rw (height, stored), rw time)
