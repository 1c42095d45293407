-- ===== src/Checks/Migrating.antt =====
-- The migration of a store of schema 1 with two actions of one state.
use nightfrost.Prelude.{
  ℕ, ◌≡◌, ◌≢◌, true, List, [], ◌∷◌, ◌==◌, length, arith, if◌then◌else◌, Bool-cases, inl, inr,
}
use nightfrost.Bytes.{Bytes, to_be}
use nightfrost.Domain.{ContractAttributes}
use nightfrost.Store.Fjall.{Partition, tag, insert, legacy_contract_actions}
use nightfrost.Store.Ordered.{Entry, find, IsSorted}
use nightfrost.Store.Records.{LegacyContractActionRecord}
use nightfrost.Backfill.ContractStates.{Partitions}
use nightfrost.Checks.Postcards.{cells}
use nightfrost.Checks.Sample.{thirty_two}
use nightfrost.Checks.SortedStore.{SortedKeyspace, sorted_fjall, empty_sorted}

without : SortedKeyspace → Partition → Partition → List Entry
without s p q = if tag q == tag p then [] else s.0 q

without-IsSorted : (s : SortedKeyspace) (p q : Partition) → IsSorted (without s p q)
unfolding without
without-IsSorted s p q = elim (Bool-cases (tag q == tag p)) [
  | inl gone ↦ rw gone tt
  | inr kept ↦ rw kept (s.1 q)
]

find-without :
    (s : SortedKeyspace) (p q : Partition) (k : Bytes)
    → tag q ≢ tag p
    → find k (without s p q) ≡ find k (s.0 q)
unfolding without
find-without s p q k differ = ground (arith, differ)

abbrev sorted_partitions : Partitions sorted_fjall
sorted_partitions = record {
  partition_exists = λ s p. true;
  delete_partition = λ s p. (without s p, without-IsSorted s p);
  get-delete_partition = find-without;
}

abbrev digest : Bytes → Bytes
digest bytes = thirty_two (length bytes)

abbrev legacy_action : ℕ → LegacyContractActionRecord
legacy_action tx = record {
  address = thirty_two 5;
  attributes = ContractAttributes.deploy;
  state = 8 ∷ 9 ∷ [];
  balances = [];
  tx_id = tx;
  block_height = 3;
}

abbrev two_actions : List (ℕ × LegacyContractActionRecord)
two_actions = (4, legacy_action 1) ∷ (5, legacy_action 2) ∷ []

abbrev old_store : SortedKeyspace
old_store = sorted_fjall.commit empty_sorted (
    insert legacy_contract_actions (to_be 8 4)
      (cells.legacy_contract_action.encode (legacy_action 1))
    ∷ insert legacy_contract_actions (to_be 8 5)
        (cells.legacy_contract_action.encode (legacy_action 2))
    ∷ [])
