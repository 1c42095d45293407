-- ===== src/Backfill/Migrated.antt =====
-- What `backfill_contract_states` of crates/nightfrost/src/backfill.rs leaves in the store.
use nightfrost.Prelude.{
  ℕ, ◌≡◌, refl, ap, subst, ◌∙◌, Bool, true, false, Option, some, List, [], ◌∷◌, All, map, arith,
  Bool-cases, inl, inr, ok, if◌then◌else◌,
}
use nightfrost.Bytes.{Bytes, bytes_eq, bytes_eq_iff, bytes_eq_refl, to_be}
use nightfrost.Bytes.BigEndian.{read_be-to_be}
use nightfrost.Store.Fjall.{
  Fjall, Partition, tag, insert, contract_actions, contract_states, apply_write, same_key,
}
use nightfrost.Store.Keys.{IsU64}
use nightfrost.Store.Ordered.{Entry}
use nightfrost.Store.Records.{Postcard, LegacyContractActionRecord}
use nightfrost.Backfill.ContractStates.{
  is_skipped, Migration, converted, store_blob, insert_record, commit_full, migrate_action,
  migrate_actions,
}
use Prim.Native.Nat.Ordering.{lt}
use nightfrost.Bytes.Order.{lex, lex_refl}
use nightfrost.Store.Ordered.{IsAfter, IsSorted}
use nightfrost.Backfill.Blobs.{
  IsSound, store_blob-IsSound, insert_record-IsSound, commit_full-IsSound,
}
use nightfrost.Backfill.Steps.{
  after_commit, IsConsistent, IsStep, record_after, full_after, commit_full-IsStep,
  insert_record-IsStep, store_blob-IsStep, store_blob-HasBlob, store_blob-elsewhere, HasBlob,
}

module _ (P : Postcard) (F : Fjall) (sha256 : Bytes → Bytes) where
  -- The legacy entry of an action.
  abbrev pub stored_action : ℕ × LegacyContractActionRecord → Entry
  stored_action (id, legacy) = (to_be 8 id, P.legacy_contract_action.encode legacy)

  -- The record of an action in the new form, under the same id, and the blob of its state under the
  -- state's hash.
  abbrev pub IsMigrated :
      (Partition → Bytes → Option Bytes) → ℕ × LegacyContractActionRecord → Type 0
  IsMigrated at (id, legacy) =
      (at contract_actions (to_be 8 id)
        ≡ some (P.contract_action.encode (converted P F sha256 legacy)))
      × HasBlob P F sha256 (at contract_states) legacy.state

  -- What an earlier run that was cut off has done: all that is behind its cursor.
  abbrev pub IsDoneIf :
      Bool → (Partition → Bytes → Option Bytes) → ℕ × LegacyContractActionRecord → Type 0
  IsDoneIf true at action = IsMigrated at action
  IsDoneIf false at action = Unit {0}

  migrated : ℕ → LegacyContractActionRecord → Migration P F sha256 → Migration P F sha256
  migrated id legacy m =
      commit_full P F sha256 id
        (insert_record P F sha256 (to_be 8 id) legacy (store_blob P F sha256 legacy.state m))

  next : Option ℕ → ℕ → LegacyContractActionRecord → Migration P F sha256 → Migration P F sha256
  next resume id legacy m = if is_skipped resume id then m else migrated id legacy m

  migrate_action-next :
      (resume : Option ℕ) (id : ℕ) (legacy : LegacyContractActionRecord) (m : Migration P F sha256)
      → IsU64 id
      → migrate_action P F sha256 resume (stored_action (id, legacy)) m
        ≡ ok (next resume id legacy m)
  unfolding migrate_action next migrated
  migrate_action-next resume id legacy m small = elim (Bool-cases (is_skipped resume id)) [
    | inl skipped ↦ rw (read_be-to_be 8 id small, skipped, migrate_action)
    | inr fresh ↦ rw (
      read_be-to_be 8 id small,
      fresh,
      P.legacy_contract_action.decode-encode legacy,
      migrate_action,
    )
  ]

  HasBlob-keeps :
      (m later : Migration P F sha256) (state : Bytes)
      → IsStep P F sha256 m later
      → HasBlob P F sha256 (after_commit P F sha256 m contract_states) state
      → HasBlob P F sha256 (after_commit P F sha256 later contract_states) state
  HasBlob-keeps m later [] step there = tt
  HasBlob-keeps m later (b ∷ state) step there = step.keeps (sha256 (b ∷ state)) there

  module _ (id : ℕ) (legacy : LegacyContractActionRecord) (m : Migration P F sha256)
      (ok_m : IsConsistent P F sha256 m) where
    recorded :
        IsStep P F sha256
          (store_blob P F sha256 legacy.state m)
          (insert_record P F sha256 (to_be 8 id) legacy (store_blob P F sha256 legacy.state m))
    recorded =
        insert_record-IsStep P F sha256 (to_be 8 id) legacy (store_blob P F sha256 legacy.state m)
          (store_blob-IsStep P F sha256 legacy.state m ok_m).consistent

    committed_step :
        IsStep P F sha256
          (insert_record P F sha256 (to_be 8 id) legacy (store_blob P F sha256 legacy.state m))
          (migrated id legacy m)
    unfolding migrated
    committed_step = commit_full-IsStep P F sha256 id _ recorded.consistent

    migrated-IsStep : IsStep P F sha256 m (migrated id legacy m)
    migrated-IsStep = record {
      consistent = committed_step.consistent;
      keeps = λ h there.
          committed_step.keeps h
            (recorded.keeps h ((store_blob-IsStep P F sha256 legacy.state m ok_m).keeps h there));
    }

    migrated-actions :
        (k : Bytes)
        → after_commit P F sha256 (migrated id legacy m) contract_actions k
          ≡ apply_write contract_actions k (after_commit P F sha256 m contract_actions k) (
              insert contract_actions
                (to_be 8 id)
                (P.contract_action.encode (converted P F sha256 legacy)))
    unfolding migrated tag
    migrated-actions k =
        full_after P F sha256 id _ contract_actions k refl
        ∙ record_after P F sha256 (to_be 8 id) legacy _ contract_actions k
        ∙ ap
            (λ old. apply_write contract_actions k old (
              insert contract_actions (to_be 8 id)
                (P.contract_action.encode (converted P F sha256 legacy))))
            (store_blob-elsewhere P F sha256 legacy.state m k)

    migrated-IsMigrated : IsMigrated (after_commit P F sha256 (migrated id legacy m)) (id, legacy)
    unfolding apply_write same_key tag
    migrated-IsMigrated = (
      migrated-actions (to_be 8 id) ∙ rw (bytes_eq_refl (to_be 8 id)),
      HasBlob-keeps _ _ legacy.state committed_step (
          HasBlob-keeps _ _ legacy.state recorded
            (store_blob-HasBlob P F sha256 legacy.state m ok_m)),
    )

    -- An action of another id stays migrated.
    migrated-keeps :
        (other : ℕ) (action : LegacyContractActionRecord)
        → bytes_eq (to_be 8 other) (to_be 8 id) ≡ false
        → IsMigrated (after_commit P F sha256 m) (other, action)
        → IsMigrated (after_commit P F sha256 (migrated id legacy m)) (other, action)
    unfolding apply_write same_key tag
    migrated-keeps other action differ (record_there, blob_there) = (
      migrated-actions (to_be 8 other) ∙ rw differ record_there,
      HasBlob-keeps m _ action.state migrated-IsStep blob_there,
    )

  next-IsConsistent :
      (resume : Option ℕ) (id : ℕ) (legacy : LegacyContractActionRecord) (m : Migration P F sha256)
      → IsConsistent P F sha256 m
      → IsConsistent P F sha256 (next resume id legacy m)
  unfolding next
  next-IsConsistent resume id legacy m ok_m = elim (Bool-cases (is_skipped resume id)) [
    | inl skipped ↦ rw skipped ok_m
    | inr fresh ↦ rw fresh (migrated-IsStep id legacy m ok_m).consistent
  ]

  next-IsMigrated :
      (resume : Option ℕ) (id : ℕ) (legacy : LegacyContractActionRecord) (m : Migration P F sha256)
      → IsConsistent P F sha256 m
      → IsDoneIf (is_skipped resume id) (after_commit P F sha256 m) (id, legacy)
      → IsMigrated (after_commit P F sha256 (next resume id legacy m)) (id, legacy)
  unfolding next
  next-IsMigrated resume id legacy m ok_m done = elim (Bool-cases (is_skipped resume id)) [
    | inl skipped ↦
        rw skipped (subst (λ t. IsDoneIf t (after_commit P F sha256 m) (id, legacy)) skipped done)
    | inr fresh ↦ rw fresh (migrated-IsMigrated id legacy m ok_m)
  ]

  next-keeps :
      (resume : Option ℕ) (id other : ℕ) (legacy action : LegacyContractActionRecord)
      (m : Migration P F sha256)
      → IsConsistent P F sha256 m
      → bytes_eq (to_be 8 other) (to_be 8 id) ≡ false
      → IsMigrated (after_commit P F sha256 m) (other, action)
      → IsMigrated (after_commit P F sha256 (next resume id legacy m)) (other, action)
  unfolding next
  next-keeps resume id other legacy action m ok_m differ done =
      elim (Bool-cases (is_skipped resume id)) [
        | inl skipped ↦ rw skipped done
        | inr fresh ↦ rw fresh (migrated-keeps id legacy m ok_m other action differ done)
      ]

  next-IsDoneIf :
      (t : Bool) (resume : Option ℕ) (id other : ℕ) (legacy action : LegacyContractActionRecord)
      (m : Migration P F sha256)
      → IsConsistent P F sha256 m
      → bytes_eq (to_be 8 other) (to_be 8 id) ≡ false
      → IsDoneIf t (after_commit P F sha256 m) (other, action)
      → IsDoneIf t (after_commit P F sha256 (next resume id legacy m)) (other, action)
  next-IsDoneIf false resume id other legacy action m ok_m differ done = tt
  next-IsDoneIf true resume id other legacy action m ok_m differ done =
      next-keeps resume id other legacy action m ok_m differ done

  abbrev pub IsAction : ℕ × LegacyContractActionRecord → Type 0
  IsAction (id, legacy) = IsU64 id

  abbrev pub IsDone :
      Option ℕ → (Partition → Bytes → Option Bytes) → ℕ × LegacyContractActionRecord → Type 0
  IsDone resume at (id, legacy) = IsDoneIf (is_skipped resume id) at (id, legacy)

  -- The ids of a sorted partition differ.
  differs :
      (id : ℕ) (other : ℕ)
      → lex (to_be 8 id) (to_be 8 other) ≡ lt
      → (bytes_eq (to_be 8 other) (to_be 8 id) ≡ false)
        × (bytes_eq (to_be 8 id) (to_be 8 other) ≡ false)
  differs id other before = ground (
    arith,
    before,
    bytes_eq_iff (to_be 8 other) (to_be 8 id),
    bytes_eq_iff (to_be 8 id) (to_be 8 other),
    lex_refl (to_be 8 id),
  )

  next-AllDone :
      (resume : Option ℕ) (id : ℕ) (legacy : LegacyContractActionRecord) (m : Migration P F sha256)
      (actions : List (ℕ × LegacyContractActionRecord))
      → IsConsistent P F sha256 m
      → All (IsAfter (to_be 8 id)) (map stored_action actions)
      → All (IsDone resume (after_commit P F sha256 m)) actions
      → All (IsDone resume (after_commit P F sha256 (next resume id legacy m))) actions
  next-AllDone resume id legacy m [] ok_m after done = tt
  next-AllDone resume id legacy m ((other, action) ∷ actions) ok_m after done = (
    next-IsDoneIf (is_skipped resume other) resume id other legacy action m ok_m
        (differs id other after.0).0 done.0,
    next-AllDone resume id legacy m actions ok_m after.1 done.1,
  )

  -- The whole loop.
  pub last :
      Option ℕ → List (ℕ × LegacyContractActionRecord) → Migration P F sha256 → Migration P F sha256
  last resume [] m = m
  last resume ((id, legacy) ∷ actions) m = last resume actions (next resume id legacy m)

  pub migrate_actions-last :
      (resume : Option ℕ) (actions : List (ℕ × LegacyContractActionRecord))
      (m : Migration P F sha256)
      → All IsAction actions
      → migrate_actions P F sha256 resume (map stored_action actions) m ≡ ok (last resume actions m)
  unfolding migrate_actions last
  migrate_actions-last resume [] m small = refl
  migrate_actions-last resume ((id, legacy) ∷ actions) m small =
      rw (migrate_action-next resume id legacy m small.0)
        (migrate_actions-last resume actions (next resume id legacy m) small.1)

  last-keeps :
      (resume : Option ℕ) (actions : List (ℕ × LegacyContractActionRecord))
      (m : Migration P F sha256) (id : ℕ) (legacy : LegacyContractActionRecord)
      → IsConsistent P F sha256 m
      → All (IsAfter (to_be 8 id)) (map stored_action actions)
      → IsMigrated (after_commit P F sha256 m) (id, legacy)
      → IsMigrated (after_commit P F sha256 (last resume actions m)) (id, legacy)
  unfolding last
  last-keeps resume [] m id legacy ok_m after done = done
  last-keeps resume ((other, action) ∷ actions) m id legacy ok_m after done =
      last-keeps resume actions (next resume other action m) id legacy
        (next-IsConsistent resume other action m ok_m) after.1
        (next-keeps resume other id action legacy m ok_m (differs id other after.0).1 done)

  pub last-IsMigrated :
      (resume : Option ℕ) (actions : List (ℕ × LegacyContractActionRecord))
      (m : Migration P F sha256)
      → IsConsistent P F sha256 m
      → IsSorted (map stored_action actions)
      → All (IsDone resume (after_commit P F sha256 m)) actions
      → All (IsMigrated (after_commit P F sha256 (last resume actions m))) actions
  unfolding last
  last-IsMigrated resume [] m ok_m sorted done = tt
  last-IsMigrated resume ((id, legacy) ∷ actions) m ok_m sorted done =
      let ok_next = next-IsConsistent resume id legacy m ok_m in
      (
        last-keeps resume actions (next resume id legacy m) id legacy ok_next sorted.0
            (next-IsMigrated resume id legacy m ok_m done.0),
        last-IsMigrated resume actions (next resume id legacy m) ok_next sorted.1
            (next-AllDone resume id legacy m actions ok_m sorted.0 done.1),
      )

  next-IsSound :
      (resume : Option ℕ) (id : ℕ) (legacy : LegacyContractActionRecord) (m : Migration P F sha256)
      → IsSound P F sha256 m
      → IsSound P F sha256 (next resume id legacy m)
  unfolding next migrated
  next-IsSound resume id legacy m sound = elim (Bool-cases (is_skipped resume id)) [
    | inl skipped ↦ rw skipped sound
    | inr fresh ↦ rw fresh (
        commit_full-IsSound P F sha256 id _ (
          insert_record-IsSound P F sha256 (to_be 8 id) legacy _
            (store_blob-IsSound P F sha256 legacy.state m sound)))
  ]

  pub last-IsSound :
      (resume : Option ℕ) (actions : List (ℕ × LegacyContractActionRecord))
      (m : Migration P F sha256)
      → IsSound P F sha256 m
      → IsSound P F sha256 (last resume actions m)
  unfolding last
  last-IsSound resume [] m sound = sound
  last-IsSound resume ((id, legacy) ∷ actions) m sound =
      last-IsSound resume actions (next resume id legacy m) (next-IsSound resume id legacy m sound)
