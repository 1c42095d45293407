-- ===== src/Store/Open.antt =====
-- The schema detection of `Store::open` in crates/nightfrost-core/src/store.rs: what opening a data
-- directory reads and writes before any record is decoded.
use nightfrost.Prelude.{
  ℕ, ◌≡◌, refl, ap, sym, ◌∙◌, Option, none, some, Option-cases, inl, inr, [], ◌∷◌, arith, Result,
  ok, ◌>>=◌, false, ok-injective, >>=-eq-ok, ◌⊎◌,
}
use nightfrost.Bytes.{Bytes, bytes_eq, read_be}
use nightfrost.Bytes.BigEndian.{read_be-to_be}
use nightfrost.Store.Error.{Error}
use nightfrost.Store.Fjall.{Fjall, Partition, insert, meta, tag, same_key, apply_write, latest}
use nightfrost.Store.Keys.{u64_key}
use nightfrost.Store.Reads.{decoded-some, schema_current, meta_u64}
use nightfrost.Store.Records.{Postcard, schema_version_key, last_height_key}

stored_mark :
    (old : Option Bytes)
    → latest meta schema_version_key old
        (insert meta schema_version_key (u64_key schema_current) ∷ [])
      ≡ some (u64_key schema_current)
unfolding latest apply_write same_key tag bytes_eq
stored_mark old = refl

module _ (F : Fjall) (P : Postcard) where
  -- The schema where no version is stored: a store without blocks is marked as current, another
  -- one is older than the mark.
  unfoldable pub unmarked_schema : F.Keyspace → Option Bytes → F.Keyspace × ℕ
  unmarked_schema s none =
      (F.commit s (insert meta schema_version_key (u64_key schema_current) ∷ []), schema_current)
  unmarked_schema s (some height) = (s, 1)

  unfoldable pub open_schema : F.Keyspace → Result Error (F.Keyspace × ℕ)
  unfolding unmarked_schema
  open_schema s = do
    stored_schema ← meta_u64 F P s schema_version_key
    elim stored_schema [
      | some v ↦ ok (s, v)
      | none ↦ ok (unmarked_schema s (F.get s meta last_height_key))
    ]

  -- What a directory is after it was opened as one of schema `v`.
  abbrev pub IsSettled : F.Keyspace → F.Keyspace → ℕ → Type 0
  IsSettled s s' v =
      ((meta_u64 F P s schema_version_key ≡ ok (some v)) × (s' ≡ s))
      ⊎ ((meta_u64 F P s schema_version_key ≡ ok none)
          × (height : Bytes) × (F.get s meta last_height_key ≡ some height)
          × (v ≡ 1)
          × (s' ≡ s))
      ⊎ ((meta_u64 F P s schema_version_key ≡ ok none)
          × (F.get s meta last_height_key ≡ none)
          × (v ≡ 2)
          × (meta_u64 F P s' schema_version_key ≡ ok (some 2))
          × ((p : Partition) (k : Bytes)
              → same_key p k meta schema_version_key ≡ false
              → F.get s' p k ≡ F.get s p k))

  mark_read :
      (s s' : F.Keyspace)
      → s' ≡ F.commit s (insert meta schema_version_key (u64_key schema_current) ∷ [])
      → meta_u64 F P s' schema_version_key ≡ ok (some schema_current)
  unfolding meta_u64
  mark_read s s' e =
      let there : F.get s' meta schema_version_key ≡ some (u64_key schema_current) =
        ap (λ t. F.get t meta schema_version_key) e
        ∙ F.get-commit s _ meta schema_version_key
        ∙ stored_mark (F.get s meta schema_version_key) in
      decoded-some (read_be 8) _ there (read_be-to_be 8 schema_current (omega arith))

  mark_elsewhere :
      (s s' : F.Keyspace) (p : Partition) (k : Bytes)
      → s' ≡ F.commit s (insert meta schema_version_key (u64_key schema_current) ∷ [])
      → same_key p k meta schema_version_key ≡ false
      → F.get s' p k ≡ F.get s p k
  unfolding latest apply_write
  mark_elsewhere s s' p k e other = ap (λ t. F.get t p k) e ∙ F.get-commit s _ p k ∙ rw other

  settled : (s s' : F.Keyspace) (v : ℕ) → open_schema s ≡ ok (s', v) → IsSettled s s' v
  unfolding open_schema unmarked_schema
  settled s s' v h =
      let (stored, read, h1) = >>=-eq-ok (meta_u64 F P s schema_version_key) _ h in
      elim (Option-cases stored) [
        | inr (n, there) ↦
            let same = sym (ok-injective (rw there at h1)) in
            inl (read ∙ ap ok (there ∙ ap some (sym (ap (λ x. x.1) same))), ap (λ x. x.0) same)
        | inl gone ↦ elim (Option-cases (F.get s meta last_height_key)) [
          | inr (height, blocks) ↦
              let same = sym (ok-injective (rw (gone, blocks) at h1)) in
              inr (inl (read ∙ ap ok gone, height, blocks, ap (λ x. x.1) same, ap (λ x. x.0) same))
          | inl empty ↦
              let made = sym (ok-injective (rw (gone, empty) at h1)) in
              inr (
                inr (
                  read ∙ ap ok gone,
                  empty,
                  ap (λ x. x.1) made,
                  mark_read s s' (ap (λ x. x.0) made),
                  λ p k. mark_elsewhere s s' p k (ap (λ x. x.0) made),
                ))
        ]
      ]

  settled_again :
      (s s' : F.Keyspace) (v : ℕ)
      → open_schema s ≡ ok (s', v)
      → IsSettled s s' v
      → open_schema s' ≡ ok (s', v)
  unfolding open_schema
  settled_again s s' v h (inl (_, kept)) = ap open_schema kept ∙ h
  settled_again s s' v h (inr (inl (_, _, _, _, kept))) = ap open_schema kept ∙ h
  settled_again s s' v h (inr (inr (_, _, current, mark, _))) =
      rw (mark, open_schema) (ap (λ n. ok (s', n)) (sym current))

  -- Opening settles the schema. A stored mark is the schema, and nothing is written; a directory with
  -- blocks and no mark is of schema 1, and nothing is written; any other one gets the mark of schema
  -- 2 and is otherwise as it was. Opened again, it has the same schema and nothing is written.
  pub open_schema_again :
      (s s' : F.Keyspace) (v : ℕ)
      → open_schema s ≡ ok (s', v)
      → IsSettled s s' v × (open_schema s' ≡ ok (s', v))
  open_schema_again s s' v h = let how = settled s s' v h in (how, settled_again s s' v h how)
