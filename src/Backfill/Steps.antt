-- ===== src/Backfill/Steps.antt =====
-- The steps of `backfill_contract_states` in crates/nightfrost/src/backfill.rs: what a commit after
-- each of them would leave in the store.
use nightfrost.Prelude.{
  ℕ, ◌≡◌, refl, sym, subst, ◌∙◌, true, false, ◌||◌, Option, none, some, [], ◌∷◌, ◌==◌, leb, arith,
  Bool-cases, inl, inr,
}
use nightfrost.Bytes.{Bytes, bytes_eq, bytes_eq_refl, to_be}
use nightfrost.Store.Fjall.{
  Fjall, Partition, tag, insert, meta, contract_actions, contract_states, latest, latest-append,
  apply_write, same_key,
}
use nightfrost.Store.Records.{Postcard, LegacyContractActionRecord}
use nightfrost.Backfill.ContractStates.{
  is_pending, is_stored, Migration, converted, insert_blob, store_blob, insert_record, commit_full,
  commit_every,
}

unfoldable pub HasValue : Option Bytes → Type 0
HasValue found = (v : Bytes) × (found ≡ some v)

pub write_elsewhere :
    (p q : Partition) (k j v : Bytes) (old : Option Bytes)
    → (tag p == tag q) ≡ false
    → apply_write p k old (insert q j v) ≡ old
unfolding apply_write same_key
write_elsewhere p q k j v old elsewhere = rw elsewhere

HasValue-written :
    (p : Partition) (h k v : Bytes) (old : Option Bytes)
    → bytes_eq h k ≡ true
    → HasValue (apply_write p h old (insert p k v))
unfolding HasValue apply_write same_key
HasValue-written p h k v old same = (v, ground (arith, same))

HasValue-insert :
    (p : Partition) (h k v : Bytes) (old : Option Bytes)
    → HasValue old
    → HasValue (apply_write p h old (insert p k v))
unfolding HasValue apply_write
HasValue-insert p h k v old (w, e) = elim (Bool-cases (same_key p h p k)) [
  | inl same ↦ (v, rw same)
  | inr other ↦ (w, rw other e)
]

module _ (P : Postcard) (F : Fjall) (sha256 : Bytes → Bytes) where
  -- What a commit now would leave at a key.
  unfoldable pub after_commit : Migration P F sha256 → Partition → Bytes → Option Bytes
  after_commit m p k = latest p k (F.get m.keyspace p k) m.batch

  -- The states that the loop takes to be stored will be.
  pub record IsConsistent (m : Migration P F sha256) : Type 0 where
    pub committed :
        (h : Bytes)
        → HasValue (F.get m.keyspace contract_states h)
        → HasValue (after_commit m contract_states h)
    pub batched :
        (h : Bytes)
        → is_pending h m.pending_hashes ≡ true
        → HasValue (after_commit m contract_states h)

  pub blob_after :
      (hash state : Bytes) (m : Migration P F sha256) (p : Partition) (k : Bytes)
      → after_commit (insert_blob P F sha256 hash state m) p k
        ≡ apply_write p k (after_commit m p k) (insert contract_states hash state)
  unfolding after_commit insert_blob latest
  blob_after hash state m p k =
      latest-append p k (F.get m.keyspace p k) m.batch (insert contract_states hash state ∷ [])

  pub record_after :
      (key : Bytes) (legacy : LegacyContractActionRecord) (m : Migration P F sha256) (p : Partition)
      (k : Bytes)
      → after_commit (insert_record P F sha256 key legacy m) p k
        ≡ apply_write p k
            (after_commit m p k)
            (insert contract_actions key (P.contract_action.encode (converted P F sha256 legacy)))
  unfolding after_commit insert_record latest
  record_after key legacy m p k = latest-append p k (F.get m.keyspace p k) m.batch _

  -- A commit in between changes no partition but that of the cursor.
  pub full_after :
      (id : ℕ) (m : Migration P F sha256) (p : Partition) (k : Bytes)
      → (tag p == tag meta) ≡ false
      → after_commit (commit_full P F sha256 id m) p k ≡ after_commit m p k
  unfolding after_commit commit_full latest
  full_after id m p k elsewhere = elim (Bool-cases (leb commit_every m.pending)) [
    | inl full ↦ rw full (
        F.get-commit m.keyspace _ p k
        ∙ latest-append p k (F.get m.keyspace p k) m.batch _
        ∙ write_elsewhere p meta k _ (to_be 8 id) _ elsewhere)
    | inr room ↦ rw room
  ]

  -- The blob of a state is there.
  abbrev pub HasBlob : (Bytes → Option Bytes) → Bytes → Type 0
  HasBlob at [] = Unit {0}
  HasBlob at (b ∷ state) = HasValue (at (sha256 (b ∷ state)))

  -- What a step of the loop leaves: a consistent state, with the blobs that there were.
  pub record IsStep (m later : Migration P F sha256) : Type 0 where
    pub consistent : IsConsistent later
    pub keeps :
        (h : Bytes)
        → HasValue (after_commit m contract_states h)
        → HasValue (after_commit later contract_states h)

  commit_full-IsConsistent :
      (id : ℕ) (m : Migration P F sha256)
      → IsConsistent m
      → IsConsistent (commit_full P F sha256 id m)
  unfolding commit_full after_commit latest is_pending
  commit_full-IsConsistent id m ok_m = elim (Bool-cases (leb commit_every m.pending)) [
    | inl full ↦
        rw (full, commit_full) (record { committed = λ h there. there; batched = λ h there. cc })
    | inr room ↦ rw (room, commit_full) ok_m
  ]

  pub commit_full-IsStep :
      (id : ℕ) (m : Migration P F sha256) → IsConsistent m → IsStep m (commit_full P F sha256 id m)
  unfolding tag
  commit_full-IsStep id m ok_m = record {
    consistent = commit_full-IsConsistent id m ok_m;
    keeps = λ h there. subst HasValue (sym (full_after id m contract_states h refl)) there;
  }

  pub insert_record-IsStep :
      (key : Bytes) (legacy : LegacyContractActionRecord) (m : Migration P F sha256)
      → IsConsistent m
      → IsStep m (insert_record P F sha256 key legacy m)
  unfolding HasValue tag insert_record
  insert_record-IsStep key legacy m ok_m =
      let same : (h : Bytes)
          → after_commit (insert_record P F sha256 key legacy m) contract_states h
            ≡ after_commit m contract_states h =
        λ h.
          record_after key legacy m contract_states h
          ∙ write_elsewhere contract_states contract_actions h _ _ _ refl in
      record {
        consistent = record {
          committed = λ h there. subst HasValue (sym (same h)) (ok_m.committed h there);
          batched = λ h there. subst HasValue (sym (same h)) (ok_m.batched h there);
        };
        keeps = λ h there. subst HasValue (sym (same h)) there;
      }

  insert_blob-IsStep :
      (hash state : Bytes) (m : Migration P F sha256)
      → IsConsistent m
      → IsStep m (insert_blob P F sha256 hash state m)
  unfolding insert_blob is_pending
  insert_blob-IsStep hash state m ok_m =
      let keeps : (h : Bytes)
          → HasValue (after_commit m contract_states h)
          → HasValue (after_commit (insert_blob P F sha256 hash state m) contract_states h) =
        λ h there.
          subst HasValue (sym (blob_after hash state m contract_states h))
            (HasValue-insert contract_states h hash state _ there) in
      record {
        consistent = record {
          committed = λ h there. keeps h (ok_m.committed h there);
          batched = λ h there. elim (Bool-cases (bytes_eq h hash)) [
            | inl same ↦
                subst HasValue (sym (blob_after hash state m contract_states h))
                  (HasValue-written contract_states h hash state _ same)
            | inr other ↦ keeps h (ok_m.batched h (ground (arith, there, other)))
          ];
        };
        keeps = keeps;
      }

  pub store_blob-IsStep :
      (state : Bytes) (m : Migration P F sha256)
      → IsConsistent m
      → IsStep m (store_blob P F sha256 state m)
  unfolding store_blob
  store_blob-IsStep [] m ok_m = record { consistent = ok_m; keeps = λ h there. there }
  store_blob-IsStep (b ∷ state) m ok_m =
      let hash = sha256 (b ∷ state) in
      elim (Bool-cases
        (is_stored (F.get m.keyspace contract_states hash) || is_pending hash m.pending_hashes)) [
          | inl known ↦
              rw (known, store_blob) (record { consistent = ok_m; keeps = λ h there. there })
          | inr new ↦ rw (new, store_blob) (insert_blob-IsStep hash (b ∷ state) m ok_m)
        ]

  stored-HasValue : (found : Option Bytes) → is_stored found ≡ true → HasValue found
  unfolding is_stored HasValue
  stored-HasValue none e = cc
  stored-HasValue (some v) e = (v, refl)

  pub store_blob-HasBlob :
      (state : Bytes) (m : Migration P F sha256)
      → IsConsistent m
      → HasBlob (after_commit (store_blob P F sha256 state m) contract_states) state
  unfolding store_blob
  store_blob-HasBlob [] m ok_m = tt
  store_blob-HasBlob (b ∷ state) m ok_m =
      let hash = sha256 (b ∷ state) in
      elim (Bool-cases
        (is_stored (F.get m.keyspace contract_states hash) || is_pending hash m.pending_hashes)) [
          | inl known ↦
              rw (known, store_blob)
                (elim (Bool-cases (is_stored (F.get m.keyspace contract_states hash))) [
                  | inl there ↦ ok_m.committed hash (stored-HasValue _ there)
                  | inr absent ↦ ok_m.batched hash (ground (arith, known, absent))
                ])
          | inr new ↦
              rw (new, store_blob)
                (subst HasValue (sym (blob_after hash (b ∷ state) m contract_states hash))
                  (HasValue-written contract_states hash hash (b ∷ state) _ (bytes_eq_refl hash)))
        ]

  pub store_blob-elsewhere :
      (state : Bytes) (m : Migration P F sha256) (k : Bytes)
      → after_commit (store_blob P F sha256 state m) contract_actions k
        ≡ after_commit m contract_actions k
  unfolding store_blob tag
  store_blob-elsewhere [] m k = refl
  store_blob-elsewhere (b ∷ state) m k =
      let hash = sha256 (b ∷ state) in
      elim (Bool-cases
        (is_stored (F.get m.keyspace contract_states hash) || is_pending hash m.pending_hashes)) [
          | inl known ↦ rw known
          | inr new ↦ rw new (
              blob_after hash (b ∷ state) m contract_actions k
              ∙ write_elsewhere contract_actions contract_states k hash (b ∷ state) _ refl)
        ]
