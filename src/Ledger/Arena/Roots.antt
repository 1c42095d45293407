-- ===== src/Ledger/Arena/Roots.antt =====
-- `get_roots` of crates/nightfrost-core/src/ledger_db.rs against the counts that `get_root_count`
-- reads one by one.
use nightfrost.Prelude.{
  ℕ, ◌^◌, ◌<◌, ◌≡◌, refl, ap, sym, ◌∙◌, Option, none, some, List, [], ◌∷◌, map, All, Result, ok,
  if◌then◌else◌, arith,
}
use nightfrost.Bytes.{Bytes, IsArray, bytes_eq, to_be}
use nightfrost.Bytes.BigEndian.{read_be-to_be}
use nightfrost.Store.Error.{Error}
use nightfrost.Store.Fjall.{Fjall, ledger_db_roots}
use nightfrost.Store.Ordered.{Entry, Ordered, find}
use nightfrost.Ledger.Arena.Operations.{
  ArenaHash, Serialization, traverse, deserialize_count, deserialize_hash, decode_root, get_roots,
  get_root_count,
}

-- `counts.get(hash).copied().unwrap_or_default()`
abbrev pub count_in : ArenaHash → List (ArenaHash × ℕ) → ℕ
count_in h [] = 0
count_in h ((k, n) ∷ roots) = if bytes_eq h k then n else count_in h roots

abbrev pub stored_root : ArenaHash × ℕ → Entry
stored_root (key, n) = (key, to_be 4 n)

abbrev pub IsRoot : ArenaHash × ℕ → Type 0
IsRoot (key, n) = IsArray 32 key × (n < 2 ^ 32)

module _ (Z : Serialization) where
  decode_root-stored :
      (root : ArenaHash × ℕ) → IsRoot root → decode_root Z (stored_root root) ≡ ok root
  unfolding decode_root deserialize_hash deserialize_count
  decode_root-stored (key, n) (array, small) =
      rw (read_be-to_be 4 n small, Z.read_hash-array key array)

  traverse-stored_roots :
      (roots : List (ArenaHash × ℕ))
      → All IsRoot roots
      → traverse (decode_root Z) (map stored_root roots) ≡ ok roots
  unfolding traverse
  traverse-stored_roots [] h = refl
  traverse-stored_roots (root ∷ roots) h =
      rw (decode_root-stored root h.0, traverse-stored_roots roots h.1)

  count_of-found : (found : Option Bytes) → Result Error ℕ
  count_of-found none = ok 0
  count_of-found (some bytes) = deserialize_count bytes

  found-count_in :
      (h : ArenaHash) (roots : List (ArenaHash × ℕ))
      → All IsRoot roots
      → count_of-found (find h (map stored_root roots)) ≡ ok (count_in h roots)
  unfolding deserialize_count count_of-found
  found-count_in h [] all = refl
  found-count_in h ((k, n) ∷ roots) all =
      ground (arith, read_be-to_be 4 n all.0.1, found-count_in h roots all.1)

  get_root_count-found :
      (F : Fjall) (s : F.Keyspace) (h : ArenaHash)
      → get_root_count Z F s h ≡ count_of-found (F.get s ledger_db_roots h)
  unfolding get_root_count count_of-found
  get_root_count-found F s h = elim (F.get s ledger_db_roots h) [ none ↦ refl | some bytes ↦ refl ]

  -- The roots that are listed have the counts that are read one by one, and every other hash reads
  -- as 0, in a store whose rows are 32-byte hashes with counts of 32 bits.
  pub get_roots-get_root_count :
      (F : Fjall) (O : Ordered F) (s : F.Keyspace) (roots : List (ArenaHash × ℕ)) (h : ArenaHash)
      → All IsRoot roots
      → O.entries s ledger_db_roots ≡ map stored_root roots
      → (get_roots Z F s O ≡ ok roots) × (get_root_count Z F s h ≡ ok (count_in h roots))
  unfolding get_roots
  get_roots-get_root_count F O s roots h all e = (
    ap (traverse (decode_root Z)) e ∙ traverse-stored_roots roots all,
    get_root_count-found F s h
        ∙ ap count_of-found (sym (O.find-entries s ledger_db_roots h) ∙ ap (find h) e)
        ∙ found-count_in h roots all,
  )
