-- ===== src/Pipeline/NodeBlocks.antt =====
-- `node_blocks` of crates/nightfrost-chain/src/pipeline.rs: the stream of blocks that the pipeline
-- indexes, out of the subscriptions that the node serves one after the other.
use nightfrost.Prelude.{
  ℕ, ◌≡◌, refl, ap, Option, none, some, List, [], ◌∷◌, ◌++◌, Result, ok, err, if◌then◌else◌,
  append-nil, true, inl, inr, Bool-cases,
}
use nightfrost.Bytes.{Bytes, bytes_eq, bytes_eq_refl, bytes_eq→eq}
use nightfrost.Pipeline.Chain.{Block, BlockRef, block_ref}

replicate : ℕ → ℕ → Bytes
replicate ℕ.zero b = []
replicate (ℕ.suc n) b = b ∷ replicate n b

-- `BlockHash::default()`
unfoldable pub default_hash : Bytes
unfolding replicate
default_hash = replicate 32 0

-- The hash that the next block must name as its parent.
unfoldable pub expected_parent : Option BlockRef → Bytes
expected_parent none = default_hash
expected_parent (some b) = b.hash

module _ {E : Type 0} where
  -- One subscription, from the block that was the highest so far: what the stream yields, and the
  -- highest block after it. A block with another parent ends the subscription.
  follow : Option BlockRef → List (Result E Block) → List (Result E Block) × Option BlockRef
  unfolding block_ref expected_parent
  follow highest [] = ([], highest)
  follow highest (err e ∷ items) = let rest = follow highest items in (err e ∷ rest.0, rest.1)
  follow highest (ok block ∷ items) =
      let rest = follow (some (block_ref block)) items in
      if bytes_eq block.parent_hash (expected_parent highest)
      then (ok block ∷ rest.0, rest.1)
      else ([], highest)

  -- The stream, over the subscriptions that the node serves.
  unfoldable pub node_blocks :
      Option BlockRef → List (List (Result E Block)) → List (Result E Block)
  unfolding follow
  node_blocks highest [] = []
  node_blocks highest (items ∷ subscriptions) =
      (follow highest items).0 ++ node_blocks (follow highest items).1 subscriptions

  -- Every block names the block before it as its parent, and the first one `parent`.
  abbrev pub IsLinked : Bytes → List (Result E Block) → Type 0
  IsLinked parent [] = Unit
  IsLinked parent (err e ∷ items) = IsLinked parent items
  IsLinked parent (ok block ∷ items) = (block.parent_hash ≡ parent) × IsLinked block.hash items

  follow-append :
      (highest : Option BlockRef) (items later : List (Result E Block))
      → IsLinked (expected_parent (follow highest items).1) later
      → IsLinked (expected_parent highest) ((follow highest items).0 ++ later)
  unfolding follow expected_parent
  follow-append highest [] later h = h
  follow-append highest (err e ∷ items) later h = follow-append highest items later h
  follow-append highest (ok block ∷ items) later h =
      elim (Bool-cases (bytes_eq block.parent_hash (expected_parent highest))) [
        | inl same ↦ rw same (
          bytes_eq→eq _ _ same,
          follow-append (some (block_ref block)) items later (rw same at h),
        )
        | inr other ↦ rw other (rw other at h)
      ]

  -- Whatever the node serves (duplicates, gaps, forks, errors and any number of subscriptions), the
  -- blocks of the stream form one chain that continues the last indexed block.
  pub node_blocks-IsLinked :
      (highest : Option BlockRef) (subscriptions : List (List (Result E Block)))
      → IsLinked (expected_parent highest) (node_blocks highest subscriptions)
  unfolding node_blocks
  node_blocks-IsLinked highest [] = tt
  node_blocks-IsLinked highest (items ∷ subscriptions) =
      follow-append highest items (node_blocks (follow highest items).1 subscriptions)
        (node_blocks-IsLinked (follow highest items).1 subscriptions)

  follow_whole :
      (highest : Option BlockRef) (items : List (Result E Block))
      → IsLinked (expected_parent highest) items
      → (follow highest items).0 ≡ items
  unfolding follow expected_parent
  follow_whole highest [] h = refl
  follow_whole highest (err e ∷ items) h = ap (λ xs. err e ∷ xs) (follow_whole highest items h)
  follow_whole highest (ok block ∷ items) h =
      let same : bytes_eq block.parent_hash (expected_parent highest) ≡ true =
        rw h.0 (bytes_eq_refl (expected_parent highest)) in
      rw same (ap (λ xs. ok block ∷ xs) (follow_whole (some (block_ref block)) items h.1))

  -- Nothing is lost either: a subscription that is linked to the last indexed block is yielded
  -- whole.
  pub node_blocks_whole :
      (highest : Option BlockRef) (items : List (Result E Block))
      → IsLinked (expected_parent highest) items
      → node_blocks highest (items ∷ []) ≡ items
  unfolding node_blocks
  node_blocks_whole highest items h = rw (follow_whole highest items h) (append-nil items)
