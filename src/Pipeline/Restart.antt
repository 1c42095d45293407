-- ===== src/Pipeline/Restart.antt =====
-- Stopping and starting again between two blocks: `run` of
-- crates/nightfrost-chain/src/pipeline.rs.
use nightfrost.Prelude.{
  ℕ, ◌≡◌, refl, ap, sym, subst, ◌∙◌, Option, some, List, [], ◌∷◌, ◌++◌, last?, arith, ok, >>=-eq-ok,
  ok-injective,
}
use nightfrost.Bytes.{Bytes}
use nightfrost.Domain.Version.{LedgerVersion, ledger_version}
use nightfrost.Store.Fjall.{Fjall}
use nightfrost.Store.Keys.{IsU64}
use nightfrost.Store.Reads.{ledger_state_window}
use nightfrost.Store.Records.{
  Postcard, LedgerStateWindow, StoredLedgerVersion, to_stored, from_stored,
}
use nightfrost.Pipeline.Chain.{Block, BlockRef, block_ref}
use nightfrost.Pipeline.Counters.{load}
use nightfrost.Pipeline.Retention.{push_key, push_key_retains}
use nightfrost.Pipeline.Startup.{same_chain, resume_from, seed_timestamp, resume_after_write}
use nightfrost.Pipeline.Writer.Defs.{Counters}
use nightfrost.Pipeline.Writer.Tip.{window_after_write, load_after_write}
use nightfrost.Pipeline.Writer.Window.{evict, next_window}
use nightfrost.Pipeline.Writer.Commit.{write_block}
use nightfrost.Pipeline.Replay.Facade.{Facade, in_context}
use nightfrost.Pipeline.Replay.Index.{Indexed, replay, index_block}
use nightfrost.Pipeline.Replay.Guard.{index_block-Verified}
use nightfrost.Pipeline.Final.{replay-IsFinal}
use nightfrost.Pipeline.Run.{Storage, Running, retain, first_state, start, run_block}

from_stored-to_stored : (v : LedgerVersion) → from_stored (to_stored v) ≡ v
unfolding from_stored to_stored
from_stored-to_stored LedgerVersion.v8 = refl
from_stored-to_stored LedgerVersion.v9 = refl

last?-append :
    (w : LedgerStateWindow) (entry : Bytes × StoredLedgerVersion)
    → last? (w ++ (entry ∷ [])) ≡ some entry
last?-append [] entry = refl
last?-append (x ∷ []) entry = refl
last?-append (x ∷ y ∷ w) entry = last?-append (y ∷ w) entry

-- The newest key is never evicted.
last?-evict :
    (w : LedgerStateWindow) (entry : Bytes × StoredLedgerVersion)
    → last? (evict (w ++ (entry ∷ []))) ≡ some entry
unfolding evict
last?-evict [] entry = refl
last?-evict (x ∷ w) entry = ground (arith, last?-evict w entry, last?-append (x ∷ w) entry)

module _ (L : Facade) (S : Storage L) (P : Postcard) (F : Fjall) where
  -- What the start reads makes the start.
  start_of :
      (s : F.Keyspace) (node_genesis : Bytes) (persisted : List Bytes) (resume : Option BlockRef)
      (state : L.State) (window : LedgerStateWindow) (ids : Counters) (time : ℕ)
      → same_chain P F s node_genesis ≡ ok tt
      → resume_from P F s ≡ ok resume
      → seed_timestamp P F s ≡ ok time
      → ledger_state_window F P s ≡ ok window
      → retain L S P F persisted window ≡ window
      → first_state L S P F resume window ≡ ok state
      → load P F s ≡ ok ids
      → start L S P F node_genesis persisted s
        ≡ ok (
          resume,
          record {
            keyspace = s;
            state = state;
            window = window;
            ids = ids;
            parent_block_timestamp = time;
            unpersisted = [];
          },
        )
  unfolding start
  start_of s node_genesis persisted resume state window ids time chain resumed seeded stored kept
        loaded counted =
      rw (chain, resumed, seeded, stored, kept, loaded, counted)

  index_block-time :
      (s : F.Keyspace) (b : Block) (raw : Option Bytes) (state : L.State) (time : ℕ)
      (window : LedgerStateWindow) (ids : Counters) (r : Indexed L F)
      → index_block L P F s b raw state time window ids ≡ ok r
      → r.parent_block_timestamp ≡ b.timestamp
  unfolding index_block
  index_block-time s b raw state time window ids r h =
      let (first, replayed, h1) = >>=-eq-ok (replay L b raw state time) _ h in
      let (second, persisting, h2) = >>=-eq-ok (in_context (L.persist first.0)) _ h1 in
      let (third, writing, h3) = >>=-eq-ok (write_block P F s b first.1 second.1 window ids) _ h2 in
      sym (ap (λ (x : Indexed L F). x.parent_block_timestamp) (ok-injective h3))

  -- The pipeline after a block.
  abbrev next : Running L S P F → Indexed L F → Running L S P F
  next now r = record {
    keyspace = r.keyspace;
    state = r.state;
    window = (push_key now.window r.key (to_stored (S.version_of r.state))).0;
    ids = r.ids;
    parent_block_timestamp = r.parent_block_timestamp;
    unpersisted =
        now.unpersisted ++ (push_key now.window r.key (to_stored (S.version_of r.state))).1;
  }

  run_block-next :
      (now later : Running L S P F) (b : Block) (raw : Option Bytes)
      → run_block L S P F now b raw ≡ ok later
      → (r : Indexed L F) × (index_block L P F now.keyspace b raw now.state
            now.parent_block_timestamp now.window now.ids
          ≡ ok r)
        × (next now r ≡ later)
  unfolding run_block
  run_block-next now later b raw h =
      let (r, indexed, rest) =
        >>=-eq-ok
          (index_block L P F now.keyspace b raw now.state now.parent_block_timestamp now.window
            now.ids)
          _ h in
      (r, indexed, ok-injective rest)

  module _ (b : Block) (node_genesis : Bytes) (persisted : List Bytes) (hh : IsU64 b.height)
      (ht : IsU64 b.timestamp) where
    -- The newest key of the window loads the state.
    first_state-next :
        (window : LedgerStateWindow) (final : L.State) (r : Indexed L F)
        → S.IsFinal final
        → L.persist final ≡ ok (r.state, r.key)
        → first_state L S P F
            (some (block_ref b))
            (push_key window r.key (to_stored (S.version_of r.state))).0
          ≡ ok r.state
    unfolding first_state next_window evict
    first_state-next window final r at_end persisting =
        let version = to_stored (S.version_of r.state) in
        let newest : last? (push_key window r.key version).0 ≡ some (r.key, version) =
          ap (λ (w : LedgerStateWindow). last? w) (push_key_retains window r.key version).0
          ∙ last?-evict window (r.key, version) in
        rw (
          newest,
          from_stored-to_stored (S.version_of r.state),
          S.load-persist final r.state r.key at_end persisting,
          first_state,
        )

    IsRestarted : Running L S P F → Type 0
    IsRestarted x =
        start L S P F node_genesis persisted x.keyspace
        ≡ ok (
          some (block_ref b),
          record {
            keyspace = x.keyspace;
            state = x.state;
            window = x.window;
            ids = x.ids;
            parent_block_timestamp = x.parent_block_timestamp;
            unpersisted = [];
          },
        )

    start-next :
        (now : Running L S P F) (raw : Option Bytes) (r : Indexed L F)
        → index_block L P F now.keyspace b raw now.state now.parent_block_timestamp now.window
            now.ids
          ≡ ok r
        → same_chain P F r.keyspace node_genesis ≡ ok tt
        → retain L S P F persisted (next now r).window ≡ (next now r).window
        → S.version_of r.state ≡ ledger_version b.protocol_version
        → IsU64 r.ids.next_tx_id
        → IsU64 r.ids.next_action_id
        → IsU64 r.ids.next_event_id
        → IsRestarted (next now r)
    unfolding IsRestarted
    start-next now raw r indexed chain kept version hx ha he =
        let (final, derived, replayed, verified, persisting, written) =
          index_block-Verified L P F now.keyspace b raw now.state now.parent_block_timestamp
            now.window now.ids r indexed in
        let (resumed, seeded) =
          resume_after_write P F now.keyspace r.keyspace b derived r.key now.window now.ids r.ids
            written hh ht in
        let time =
          index_block-time now.keyspace b raw now.state now.parent_block_timestamp now.window
            now.ids r indexed in
        let stored =
          window_after_write P F now.keyspace r.keyspace b derived r.key now.window now.ids r.ids
            written in
        start_of r.keyspace node_genesis persisted (some (block_ref b)) r.state (next now r).window
          r.ids r.parent_block_timestamp chain resumed (seeded ∙ ap ok (sym time))
          (stored
            ∙ ap (λ v. ok (next_window now.window r.key (to_stored v))) (sym version)
            ∙ ap ok (sym (push_key_retains now.window r.key (to_stored (S.version_of r.state))).0))
          kept
          (first_state-next now.window final r
            (replay-IsFinal L S b raw now.state now.parent_block_timestamp final derived replayed)
            persisting)
          (load_after_write P F now.keyspace r.keyspace b derived r.key now.window now.ids r.ids
            written hx ha he)

    -- A restart after a block finds what the pipeline had: it resumes behind that very block, with
    -- the same store, ledger state, window, counters and parent time, and nothing unpersisted yet.
    -- The store belongs to the node's chain, the roots of the window's keys are persisted, the ledger
    -- state has the block's version, and heights, times and counters are u64s.
    pub start-run_block :
        (now later : Running L S P F) (raw : Option Bytes)
        → run_block L S P F now b raw ≡ ok later
        → same_chain P F later.keyspace node_genesis ≡ ok tt
        → retain L S P F persisted later.window ≡ later.window
        → S.version_of later.state ≡ ledger_version b.protocol_version
        → IsU64 later.ids.next_tx_id
        → IsU64 later.ids.next_action_id
        → IsU64 later.ids.next_event_id
        → start L S P F node_genesis persisted later.keyspace
          ≡ ok (
            some (block_ref b),
            record {
              keyspace = later.keyspace;
              state = later.state;
              window = later.window;
              ids = later.ids;
              parent_block_timestamp = later.parent_block_timestamp;
              unpersisted = [];
            },
          )
    unfolding IsRestarted
    start-run_block now later raw ran =
        let (r, indexed, same) = run_block-next now later b raw ran in
        subst
          (λ (x : Running L S P F).
            same_chain P F x.keyspace node_genesis ≡ ok tt
            → retain L S P F persisted x.window ≡ x.window
            → S.version_of x.state ≡ ledger_version b.protocol_version
            → IsU64 x.ids.next_tx_id
            → IsU64 x.ids.next_action_id
            → IsU64 x.ids.next_event_id
            → IsRestarted x)
          same (start-next now raw r indexed)
