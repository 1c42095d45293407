-- ===== src/Backfill/Blobs.antt =====
-- The content of the blobs that `backfill_contract_states` of crates/nightfrost/src/backfill.rs
-- leaves: each is one whose hash is its key.
use nightfrost.Prelude.{
  ℕ, ◌≡◌, refl, sym, ◌∙◌, ◌||◌, Option, some, [], ◌∷◌, Bool-cases, inl, inr, arith,
}
use nightfrost.Bytes.{Bytes, bytes_eq, bytes_eq_iff}
use nightfrost.Store.Fjall.{Fjall, tag, contract_actions, contract_states, apply_write, same_key}
use nightfrost.Store.Records.{Postcard, LegacyContractActionRecord}
use nightfrost.Backfill.ContractStates.{
  is_pending, is_stored, Migration, insert_blob, store_blob, insert_record, commit_full,
}
use nightfrost.Backfill.Steps.{after_commit, blob_after, record_after, full_after, write_elsewhere}

module _ (P : Postcard) (F : Fjall) (sha256 : Bytes → Bytes) where
  abbrev pub AreHashed : (Bytes → Option Bytes) → Type 0
  AreHashed at = (h v : Bytes) → at h ≡ some v → sha256 v ≡ h

  -- A commit now would leave blobs under their hashes only.
  abbrev pub IsSound : Migration P F sha256 → Type 0
  IsSound m = AreHashed (after_commit P F sha256 m contract_states)

  insert_blob-IsSound :
      (hash state : Bytes) (m : Migration P F sha256)
      → sha256 state ≡ hash
      → IsSound m
      → IsSound (insert_blob P F sha256 hash state m)
  unfolding apply_write same_key tag
  insert_blob-IsSound hash state m hashed sound h v e =
      let at = sym (blob_after P F sha256 hash state m contract_states h) ∙ e in
      elim (Bool-cases (bytes_eq h hash)) [
        | inl same ↦ ground (arith, rw same at at, hashed, bytes_eq_iff h hash, same)
        | inr other ↦ sound h v (rw other at at)
      ]

  pub store_blob-IsSound :
      (state : Bytes) (m : Migration P F sha256)
      → IsSound m
      → IsSound (store_blob P F sha256 state m)
  unfolding store_blob
  store_blob-IsSound [] m sound = sound
  store_blob-IsSound (b ∷ state) m sound =
      let hash = sha256 (b ∷ state) in
      elim (Bool-cases
        (is_stored (F.get m.keyspace contract_states hash) || is_pending hash m.pending_hashes)) [
          | inl known ↦ rw (known, store_blob) sound
          | inr new ↦ rw (new, store_blob) (insert_blob-IsSound hash (b ∷ state) m refl sound)
        ]

  pub insert_record-IsSound :
      (key : Bytes) (legacy : LegacyContractActionRecord) (m : Migration P F sha256)
      → IsSound m
      → IsSound (insert_record P F sha256 key legacy m)
  unfolding tag
  insert_record-IsSound key legacy m sound h v e = sound h v (
      sym (
        record_after P F sha256 key legacy m contract_states h
        ∙ write_elsewhere contract_states contract_actions h _ _ _ refl)
      ∙ e)

  pub commit_full-IsSound :
      (id : ℕ) (m : Migration P F sha256) → IsSound m → IsSound (commit_full P F sha256 id m)
  unfolding tag
  commit_full-IsSound id m sound h v e =
      sound h v (sym (full_after P F sha256 id m contract_states h refl) ∙ e)
