-- ===== src/Ledger/Arena/Operations.antt =====
-- `FjallLedgerDb` of crates/nightfrost-core/src/ledger_db.rs: the implementation of storage-core's
-- `DB` trait over two partitions. `size`, an estimate for statistics, is not modelled.
use nightfrost.Prelude.{
  ℕ, zero, suc, ◌≡◌, Option, none, some, List, [], ◌∷◌, take, last?, map, Result, ok, err, ◌>>=◌,
  if◌then◌else◌, ltb,
}
use nightfrost.Bytes.{Bytes, IsArray, to_be, read_be}
use nightfrost.Store.Error.{Error, panicked}
use nightfrost.Store.Fjall.{Fjall, ledger_db_nodes, ledger_db_roots, Write, insert, remove}
use nightfrost.Store.Records.{Codec}
use nightfrost.Store.Ordered.{Entry, Ordered, Lower, excluded, unbounded, range}

-- `ArenaHash`: 32 bytes.
abbrev pub ArenaHash : Type 0
ArenaHash = Bytes

-- The serialization of midnight-serialize and storage-core's nodes: a node names its children.
pub record Serialization : Type 1 where
  pub OnDiskObject : Type 0
  pub children : OnDiskObject → List ArenaHash
  pub object : Codec OnDiskObject
  pub read_hash : Bytes → Option ArenaHash
  pub read_hash-array : (h : ArenaHash) → IsArray 32 h → read_hash h ≡ some h

-- `.expect(…)`
abbrev pub expect {ℓ} : {A : Type ℓ} → Option A → Result Error A
expect none = err panicked
expect (some a) = ok a

-- Rust's `collect` over steps that may panic.
unfoldable pub traverse {ℓ κ} :
    {A : Type ℓ} {B : Type κ} → (A → Result Error B) → List A → Result Error (List B)
traverse f [] = ok []
traverse f (x ∷ xs) = do b ← f x; bs ← traverse f xs; ok (b ∷ bs)

-- `u32::from_be_bytes(bytes.try_into().expect(…))`
unfoldable pub deserialize_count : Bytes → Result Error ℕ
deserialize_count bytes = expect (read_be 4 bytes)

module _ (Z : Serialization) where
  open Z use {OnDiskObject}

  pub data Update : Type 0 where
    insert_node_update : OnDiskObject → Update
    delete_node_update : Update
    set_root_count_update : ℕ → Update

  unfoldable pub serialize_object : OnDiskObject → Bytes
  serialize_object object = Z.object.encode object

  unfoldable pub deserialize_object : Bytes → Result Error OnDiskObject
  deserialize_object bytes = expect (Z.object.decode bytes)

  unfoldable pub deserialize_hash : Bytes → Result Error ArenaHash
  deserialize_hash bytes = expect (Z.read_hash bytes)

  -- What one update puts into the batch.
  unfoldable pub update_write : ArenaHash × Update → Write
  unfolding serialize_object
  update_write (key, insert_node_update object) =
      insert ledger_db_nodes key (serialize_object object)
  update_write (key, delete_node_update) = remove ledger_db_nodes key
  update_write (key, set_root_count_update zero) = remove ledger_db_roots key
  update_write (key, set_root_count_update (suc n)) = insert ledger_db_roots key (to_be 4 (suc n))

  unfoldable pub decode_node : Entry → Result Error (ArenaHash × OnDiskObject)
  decode_node (key, value) = do
    hash ← deserialize_hash key
    object ← deserialize_object value
    ok (hash, object)

  unfoldable pub decode_root : Entry → Result Error (ArenaHash × ℕ)
  decode_root (key, value) = do
    count ← deserialize_count value
    hash ← deserialize_hash key
    ok (hash, count)

  module _ (F : Fjall) (s : F.Keyspace) where
    unfoldable pub get_node : ArenaHash → Result Error (Option OnDiskObject)
    get_node key = elim (F.get s ledger_db_nodes key) [
      | none ↦ ok none
      | some bytes ↦ do object ← deserialize_object bytes; ok (some object)
    ]

    unfoldable pub insert_node : ArenaHash → OnDiskObject → F.Keyspace
    insert_node key object = F.insert_entry s ledger_db_nodes key (serialize_object object)

    unfoldable pub delete_node : ArenaHash → F.Keyspace
    delete_node key = F.remove_entry s ledger_db_nodes key

    unfoldable pub batch_update : List (ArenaHash × Update) → F.Keyspace
    batch_update updates = F.commit s (map update_write updates)

    unfoldable pub batch_get_nodes :
        List ArenaHash → Result Error (List (ArenaHash × Option OnDiskObject))
    batch_get_nodes keys = traverse (λ key. get_node key >>= λ node. ok (key, node)) keys

    unfoldable pub get_root_count : ArenaHash → Result Error ℕ
    get_root_count key = elim (F.get s ledger_db_roots key) [
      | none ↦ ok 0
      | some bytes ↦ deserialize_count bytes
    ]

    unfoldable pub set_root_count : ArenaHash → ℕ → F.Keyspace
    set_root_count key count =
        if ltb 0 count
        then F.insert_entry s ledger_db_roots key (to_be 4 count)
        else F.remove_entry s ledger_db_roots key

    module _ (O : Ordered F) where
      unfoldable pub get_roots : Result Error (List (ArenaHash × ℕ))
      get_roots = traverse decode_root (O.entries s ledger_db_roots)

      abbrev pub lower_bound : Option ArenaHash → Lower
      lower_bound none = unbounded
      lower_bound (some handle) = excluded handle

      -- The key of the last row.
      abbrev pub last_key : List (ArenaHash × OnDiskObject) → Option ArenaHash
      last_key rows = elim (last? rows) [ none ↦ none | some (key, _) ↦ some key ]

      unfoldable pub scan :
          Option ArenaHash → ℕ → Result Error (List (ArenaHash × OnDiskObject) × Option ArenaHash)
      scan resume_from batch_size = do
        batch ←
            traverse decode_node
              (take batch_size (range (lower_bound resume_from) (O.entries s ledger_db_nodes)))
        ok (batch, last_key batch)
