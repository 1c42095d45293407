-- ===== src/Pipeline/Replay/Guard.antt =====
-- The root guard of `index_block` of crates/nightfrost-chain/src/pipeline.rs.
use nightfrost.Prelude.{
  ℕ, ◌≡◌, ◌∙◌, ap, Bool, true, Option, none, some, List, arith, Result, ok, err, >>=-eq-ok,
  ok-injective, subst,
}
use nightfrost.Bytes.{Bytes, bytes_eq, bytes_eq→eq}
use nightfrost.Store.Error.{
  Error, ledger_state_root_mismatch, zswap_state_root_mismatch, LedgerError,
}
use nightfrost.Store.Fjall.{Fjall}
use nightfrost.Store.Records.{Postcard, LedgerStateWindow}
use nightfrost.Pipeline.Chain.{Block}
use nightfrost.Pipeline.Writer.Defs.{Counters, AppliedTransaction}
use nightfrost.Pipeline.Writer.Commit.{write_block}
use nightfrost.Pipeline.Replay.Facade.{Facade, in_context}
use nightfrost.Pipeline.Replay.Index.{
  parent_time, start_state, genesis, apply_transactions, or_state, root_matches, check, replay,
  Indexed, index_block,
}

check-true : (test : Bool) (e : Error) {u : Unit {0}} → check test e ≡ ok u → test ≡ true
unfolding check
check-true test e h = ground arith

pub in_context-ok : {A : Type 0} (r : Result LedgerError A) {a : A} → in_context r ≡ ok a → r ≡ ok a
in_context-ok (ok b) h = ap ok (ok-injective h)
in_context-ok (err e) h = cc

-- A root that the node gave is the replay's.
abbrev pub IsGivenRoot : Option Bytes → Bytes → Type 0
IsGivenRoot none replayed = Unit {0}
IsGivenRoot (some node_root) replayed = node_root ≡ replayed

root_matches-IsGivenRoot :
    (given : Option Bytes) (replayed : Bytes)
    → root_matches given replayed ≡ true
    → IsGivenRoot given replayed
unfolding root_matches
root_matches-IsGivenRoot none replayed h = tt
root_matches-IsGivenRoot (some node_root) replayed h = bytes_eq→eq node_root replayed h

module _ (L : Facade) where
  -- A state with the roots that the node gave.
  pub record Verified (block : Block) (state : L.State) : Type 0 where
    pub replayed_root : Bytes
    pub is_root : L.root state ≡ ok replayed_root
    pub same_root : IsGivenRoot block.ledger_state_root replayed_root
    pub same_zswap_root : L.zswap_merkle_tree_root state ≡ block.zswap_merkle_tree_root

  replay-Verified :
      (block : Block) (raw : Option Bytes) (state : L.State) (time : ℕ) (final : L.State)
      (derived : List AppliedTransaction)
      → replay L block raw state time ≡ ok (final, derived)
      → Verified block final
  unfolding replay
  replay-Verified block raw state time final derived h =
      let (started, _, h1) = >>=-eq-ok (start_state L block state) _ h in
      let ((base, genesis_state), _, h2) = >>=-eq-ok (genesis L block raw started) _ h1 in
      let ((applied, _), _, h3) =
        >>=-eq-ok (apply_transactions L block (parent_time time block) true base block.transactions)
          _ h2 in
      let (finished, _, h4) =
        >>=-eq-ok (in_context (L.finalize_apply_transactions applied block.timestamp)) _ h3 in
      let replayed = or_state L genesis_state finished in
      let (root, rooted, h5) = >>=-eq-ok (in_context (L.root replayed)) _ h4 in
      let (_, ledger_checked, h6) =
        >>=-eq-ok (check (root_matches block.ledger_state_root root) ledger_state_root_mismatch) _
          h5 in
      let (_, zswap_checked, h7) =
        >>=-eq-ok
          (check (bytes_eq (L.zswap_merkle_tree_root replayed) block.zswap_merkle_tree_root)
            zswap_state_root_mismatch)
          _ h6 in
      subst (Verified block) (ap (λ x. x.0) (ok-injective h7)) record {
        replayed_root = root;
        is_root = in_context-ok (L.root replayed) rooted;
        same_root =
            root_matches-IsGivenRoot block.ledger_state_root root
              (check-true _ ledger_state_root_mismatch ledger_checked);
        same_zswap_root = bytes_eq→eq _ _ (check-true _ zswap_state_root_mismatch zswap_checked);
      }

  module _ (P : Postcard) (F : Fjall) where
    -- Whatever is written was verified: when a block is indexed, the keyspace is what `write_block`
    -- made of the replay's transactions under the key of the persisted state, and that state's
    -- ledger root is the one that the node gave for the block, if it gave one, and its zswap root
    -- is the node's.
    pub index_block-Verified :
        (s : F.Keyspace) (block : Block) (raw : Option Bytes) (state : L.State) (time : ℕ)
        (window : LedgerStateWindow) (ids : Counters) (r : Indexed L F)
        → index_block L P F s block raw state time window ids ≡ ok r
        → (final : L.State) × (derived : List AppliedTransaction) × (replay L block raw state time
            ≡ ok (final, derived))
          × Verified block final
          × (L.persist final ≡ ok (r.state, r.key))
          × (write_block P F s block derived r.key window ids ≡ ok (r.keyspace, r.ids))
    unfolding index_block
    index_block-Verified s block raw state time window ids r h =
        let ((final, derived), replayed, h1) = >>=-eq-ok (replay L block raw state time) _ h in
        let ((persisted, key), persisting, h2) = >>=-eq-ok (in_context (L.persist final)) _ h1 in
        let ((s', ids'), writing, h3) =
          >>=-eq-ok (write_block P F s block derived key window ids) _ h2 in
        let same = ok-injective h3 in
        (
          final,
          derived,
          replayed,
          replay-Verified block raw state time final derived replayed,
          in_context-ok (L.persist final) persisting
              ∙ ap (λ (x : Indexed L F). ok (x.state, x.key)) same,
          subst
              (λ (x : Indexed L F).
                write_block P F s block derived x.key window ids ≡ ok (x.keyspace, x.ids))
              same writing,
        )
