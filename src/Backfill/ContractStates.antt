-- ===== src/Backfill/ContractStates.antt =====
-- `backfill_contract_states` of crates/nightfrost/src/backfill.rs: a store of schema 1 is rewritten to
-- schema 2, whose contract actions name their states by hash. The legacy partition is
-- `contract_actions` there and `legacy_contract_actions` here, the new one `contract_actions`.
use nightfrost.Prelude.{
  ℕ, ◌+◌, ◌≡◌, ◌≢◌, Bool, true, false, ◌||◌, Option, none, some, List, [], ◌∷◌, ◌++◌, leb, length,
  Result, ok, err, ◌>>=◌, if◌then◌else◌,
}
use nightfrost.Bytes.{Bytes, bytes_eq, to_be, read_be}
use nightfrost.Store.Error.{Error, panicked, bad_action_id}
use nightfrost.Store.Fjall.{
  Fjall, Partition, tag, insert, remove, Batch, meta, contract_actions, contract_states,
  legacy_contract_actions,
}
use nightfrost.Store.Ordered.{Entry, Ordered}
use nightfrost.Store.Reads.{schema_current, decoded}
use nightfrost.Store.Records.{
  Postcard, ContractActionRecord, LegacyContractActionRecord, schema_version_key,
  contract_states_backfill_cursor_key,
}

-- The partitions of a keyspace: `partition_exists` and `delete_partition`.
pub record Partitions (F : Fjall) : Type 0 where
  pub partition_exists : F.Keyspace → Partition → Bool
  pub delete_partition : F.Keyspace → Partition → F.Keyspace
  pub get-delete_partition :
      (s : F.Keyspace) (p q : Partition) (k : Bytes)
      → tag q ≢ tag p
      → F.get (delete_partition s p) q k ≡ F.get s q k

pub record ContractStatesCounts : Type 0 where
  pub actions : ℕ
  pub blobs : ℕ
  pub blob_bytes : ℕ
  pub cut_over : Bool
  pub reclaimed : Bool

abbrev pub no_counts : ContractStatesCounts
no_counts = record { actions = 0; blobs = 0; blob_bytes = 0; cut_over = false; reclaimed = false }

abbrev pub commit_every : ℕ
commit_every = 1000

-- `pending_hashes.contains(&hash)`
unfoldable pub is_pending : Bytes → List Bytes → Bool
is_pending hash [] = false
is_pending hash (h ∷ hs) = bytes_eq hash h || is_pending hash hs

-- `contains_key`
unfoldable pub is_stored : Option Bytes → Bool
is_stored none = false
is_stored (some v) = true

-- `resume_after.is_some_and(|cursor| action_id <= cursor)`
unfoldable pub is_skipped : Option ℕ → ℕ → Bool
is_skipped none id = false
is_skipped (some cursor) id = leb id cursor

module _ (P : Postcard) (F : Fjall) (sha256 : Bytes → Bytes) where
  -- The locals of the loop.
  pub record Migration : Type 0 where
    pub keyspace : F.Keyspace
    pub batch : Batch
    pub pending : ℕ
    pub pending_hashes : List Bytes
    pub counts : ContractStatesCounts

  unfoldable pub state_hash_of : Bytes → Option Bytes
  state_hash_of [] = none
  state_hash_of (b ∷ state) = some (sha256 (b ∷ state))

  unfoldable pub converted : LegacyContractActionRecord → ContractActionRecord
  converted legacy = record {
    address = legacy.address;
    attributes = legacy.attributes;
    state_hash = state_hash_of legacy.state;
    balances = legacy.balances;
    tx_id = legacy.tx_id;
    block_height = legacy.block_height;
  }

  unfoldable pub insert_blob : Bytes → Bytes → Migration → Migration
  insert_blob hash state m = record {
    keyspace = m.keyspace;
    batch = m.batch ++ (insert contract_states hash state ∷ []);
    pending = m.pending;
    pending_hashes = hash ∷ m.pending_hashes;
    counts = record {
      actions = m.counts.actions;
      blobs = m.counts.blobs + 1;
      blob_bytes = m.counts.blob_bytes + length state;
      cut_over = m.counts.cut_over;
      reclaimed = m.counts.reclaimed;
    };
  }

  -- A state is stored once, under its hash; an empty one not at all.
  unfoldable pub store_blob : Bytes → Migration → Migration
  store_blob [] m = m
  store_blob (b ∷ state) m =
      let hash = sha256 (b ∷ state) in
      if is_stored (F.get m.keyspace contract_states hash) || is_pending hash m.pending_hashes
      then m
      else insert_blob hash (b ∷ state) m

  unfoldable pub insert_record : Bytes → LegacyContractActionRecord → Migration → Migration
  insert_record key legacy m = record {
    keyspace = m.keyspace;
    batch =
        m.batch ++ (insert contract_actions key (P.contract_action.encode (converted legacy)) ∷ []);
    pending = m.pending + 1;
    pending_hashes = m.pending_hashes;
    counts = record {
      actions = m.counts.actions + 1;
      blobs = m.counts.blobs;
      blob_bytes = m.counts.blob_bytes;
      cut_over = m.counts.cut_over;
      reclaimed = m.counts.reclaimed;
    };
  }

  -- A full batch is committed with the cursor behind it.
  unfoldable pub commit_full : ℕ → Migration → Migration
  commit_full last_id m =
      if leb commit_every m.pending
      then record {
        keyspace =
            F.commit m.keyspace
              (m.batch ++ (insert meta contract_states_backfill_cursor_key (to_be 8 last_id) ∷ []));
        batch = [];
        pending = 0;
        pending_hashes = [];
        counts = m.counts;
      }
      else m

  unfoldable pub migrate_action : Option ℕ → Entry → Migration → Result Error Migration
  migrate_action resume_after (key, value) m = elim (read_be 8 key) [
    | none ↦ err bad_action_id
    | some id ↦
        if is_skipped resume_after id then ok m else elim (P.legacy_contract_action.decode value) [
          | none ↦ err panicked
          | some legacy ↦ ok (commit_full id (insert_record key legacy (store_blob legacy.state m)))
        ]
  ]

  unfoldable pub migrate_actions : Option ℕ → List Entry → Migration → Result Error Migration
  migrate_actions resume_after [] m = ok m
  migrate_actions resume_after (entry ∷ entries) m = do
    m_next ← migrate_action resume_after entry m
    migrate_actions resume_after entries m_next

  -- The last batch, with the cutover.
  unfoldable pub cut_over_batch : Batch → Batch
  cut_over_batch batch =
      batch
      ++ (remove meta contract_states_backfill_cursor_key
          ∷ insert meta schema_version_key (to_be 8 schema_current)
          ∷ [])

  module _ (O : Ordered F) (D : Partitions F) where
    unfoldable pub reclaim : F.Keyspace → ContractStatesCounts → F.Keyspace × ContractStatesCounts
    reclaim s counts = (
      D.delete_partition s legacy_contract_actions,
      record {
        actions = counts.actions;
        blobs = counts.blobs;
        blob_bytes = counts.blob_bytes;
        cut_over = counts.cut_over;
        reclaimed = true;
      },
    )

    -- The schema that the store was opened with decides what is left to do.
    unfoldable pub backfill_contract_states :
        ℕ → F.Keyspace → Result Error (F.Keyspace × ContractStatesCounts)
    backfill_contract_states schema s =
        if leb schema_current schema
        then if D.partition_exists s legacy_contract_actions
          then ok (reclaim s no_counts)
          else ok (s, no_counts)
        else (do
          resume_after ← decoded (read_be 8) (F.get s meta contract_states_backfill_cursor_key)
          m ← migrate_actions resume_after (O.entries s legacy_contract_actions) (record {
            keyspace = s;
            batch = [];
            pending = 0;
            pending_hashes = [];
            counts = no_counts;
          })
          ok (
              reclaim (F.commit m.keyspace (cut_over_batch m.batch)) (record {
                actions = m.counts.actions;
                blobs = m.counts.blobs;
                blob_bytes = m.counts.blob_bytes;
                cut_over = true;
                reclaimed = false;
              })))
