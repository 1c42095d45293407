-- ===== src/Store/Fjall.antt =====
-- The key-value store under the index (the vendored fjall), as far as the sources call it: a
-- keyspace of partitions, read by key or in key order, and written by atomic batches.
-- Its own input and output errors are not modelled.
use nightfrost.Prelude.{
  ℕ, ◌≡◌, refl, Bool, ◌&&◌, Option, none, some, List, [], ◌∷◌, ◌++◌, ◌==◌, if◌then◌else◌,
}
use nightfrost.Bytes.{Bytes, bytes_eq}

-- The partitions of `Store`, and the one of contract actions that schema 1 has.
pub data Partition : Type 0 where
  meta blocks blocks_by_hash txs txs_by_hash txs_by_identifier utxos : Partition
  utxos_unspent_by_owner balances addr_txs contract_actions : Partition
  contract_actions_by_addr contract_states contracts ledger_events : Partition
  wallet_dust_events wallet_tx_indices wallet_relevant_txs wallet_scan_progress : Partition
  events_by_contract dust_generation dust_gen_by_owner cnight_registrations : Partition
  ledger_db_nodes ledger_db_roots legacy_contract_actions : Partition

unfoldable pub tag : Partition → ℕ
tag meta = 0
tag blocks = 1
tag blocks_by_hash = 2
tag txs = 3
tag txs_by_hash = 4
tag txs_by_identifier = 5
tag utxos = 6
tag utxos_unspent_by_owner = 7
tag balances = 8
tag addr_txs = 9
tag contract_actions = 10
tag contract_actions_by_addr = 11
tag contract_states = 12
tag contracts = 13
tag ledger_events = 14
tag wallet_dust_events = 15
tag wallet_tx_indices = 16
tag wallet_relevant_txs = 17
tag wallet_scan_progress = 18
tag events_by_contract = 19
tag dust_generation = 20
tag dust_gen_by_owner = 21
tag cnight_registrations = 22
tag ledger_db_nodes = 23
tag ledger_db_roots = 24
tag legacy_contract_actions = 25

-- One entry of a batch.
pub data Write : Type 0 where
  insert : Partition → Bytes → Bytes → Write
  remove : Partition → Bytes → Write

abbrev pub Batch : Type 0
Batch = List Write

unfoldable pub same_key : Partition → Bytes → Partition → Bytes → Bool
unfolding tag
same_key p k q j = (tag p == tag q) && bytes_eq k j

-- What one entry of a batch leaves at a key.
unfoldable pub apply_write : Partition → Bytes → Option Bytes → Write → Option Bytes
apply_write p k old (insert q j v) = if same_key p k q j then some v else old
apply_write p k old (remove q j) = if same_key p k q j then none else old

-- A batch's entries take effect in order.
unfoldable pub latest : Partition → Bytes → Option Bytes → Batch → Option Bytes
latest p k old [] = old
latest p k old (w ∷ ws) = latest p k (apply_write p k old w) ws

pub latest-append :
    (p : Partition) (k : Bytes) (old : Option Bytes) (xs ys : Batch)
    → latest p k old (xs ++ ys) ≡ latest p k (latest p k old xs) ys
unfolding latest
latest-append p k old [] ys = refl
latest-append p k old (w ∷ xs) ys = latest-append p k (apply_write p k old w) xs ys

-- `get`, the writes of one key, `insert` and `remove`, and the batch. A batch is visible all at once, after its commit, and to nobody before.
pub record Fjall : Type 1 where
  pub Keyspace : Type 0
  pub get : Keyspace → Partition → Bytes → Option Bytes
  pub commit : Keyspace → Batch → Keyspace
  pub get-commit :
      (s : Keyspace) (ws : Batch) (p : Partition) (k : Bytes)
      → get (commit s ws) p k ≡ latest p k (get s p k) ws
  pub insert_entry : Keyspace → Partition → Bytes → Bytes → Keyspace
  pub get-insert_entry :
      (s : Keyspace) (q : Partition) (j v : Bytes) (p : Partition) (k : Bytes)
      → get (insert_entry s q j v) p k ≡ (if same_key p k q j then some v else get s p k)
  pub remove_entry : Keyspace → Partition → Bytes → Keyspace
  pub get-remove_entry :
      (s : Keyspace) (q : Partition) (j : Bytes) (p : Partition) (k : Bytes)
      → get (remove_entry s q j) p k ≡ (if same_key p k q j then none else get s p k)

-- Keyspaces as functions.
abbrev pub function_fjall : Fjall
function_fjall = record {
  Keyspace = Partition → Bytes → Option Bytes;
  get = λ s p k. s p k;
  commit = λ s ws p k. latest p k (s p k) ws;
  get-commit = λ s ws p k. refl;
  insert_entry = λ s q j v p k. if same_key p k q j then some v else s p k;
  get-insert_entry = λ s q j v p k. refl;
  remove_entry = λ s q j p k. if same_key p k q j then none else s p k;
  get-remove_entry = λ s q j p k. refl;
}
