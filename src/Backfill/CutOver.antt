-- ===== src/Backfill/CutOver.antt =====
-- The whole of `backfill_contract_states` in crates/nightfrost/src/backfill.rs, from a store of
-- schema 1 to one of schema 2.
use nightfrost.Prelude.{ℕ, ◌≡◌, true, Option, some, [], ◌∷◌}
use nightfrost.Bytes.{Bytes, to_be}
use nightfrost.Store.Fjall.{Fjall, Partition, contract_actions, contract_states}
use nightfrost.Store.Ordered.{Ordered}
use nightfrost.Store.Records.{Postcard, LegacyContractActionRecord}
use nightfrost.Backfill.ContractStates.{
  Partitions, ContractStatesCounts, no_counts, Migration, converted,
}

module _ (P : Postcard) (F : Fjall) (sha256 : Bytes → Bytes) where
  -- Under the state's hash there is a blob with that hash.
  abbrev pub HasState : (Bytes → Option Bytes) → Bytes → Type 0
  HasState at [] = Unit {0}
  HasState at (b ∷ state) =
      (blob : Bytes) × (at (sha256 (b ∷ state)) ≡ some blob) × (sha256 blob ≡ sha256 (b ∷ state))

  -- The record of an action in the new form, under the same id, and its state's blob.
  abbrev pub IsConverted :
      (Partition → Bytes → Option Bytes) → ℕ × LegacyContractActionRecord → Type 0
  IsConverted at (id, legacy) =
      (at contract_actions (to_be 8 id)
        ≡ some (P.contract_action.encode (converted P F sha256 legacy)))
      × HasState (at contract_states) legacy.state

  begun : F.Keyspace → Migration P F sha256
  begun s = record {
    keyspace = s;
    batch = [];
    pending = 0;
    pending_hashes = [];
    counts = no_counts;
  }

  module _ (O : Ordered F) (D : Partitions F) where
    final_counts : Migration P F sha256 → ContractStatesCounts
    final_counts m = record {
      actions = m.counts.actions;
      blobs = m.counts.blobs;
      blob_bytes = m.counts.blob_bytes;
      cut_over = true;
      reclaimed = true;
    }
