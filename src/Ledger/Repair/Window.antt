-- ===== src/Ledger/Repair/Window.antt =====
-- `window_root_counts` and the whole of `repair_root_counts` in
-- crates/nightfrost-core/src/domain/ledger/ledger_state.rs.
use Prim.Native.Nat.{Ordering}
use Prim.Native.Nat.Ordering.{lt, eq, gt}
use nightfrost.Prelude.{
  ℕ, ◌+◌, ◌≡◌, refl, ap, ◌∙◌, Bool, false, some, List, [], ◌∷◌, All, if◌then◌else◌, arith, Result,
  ok, ◌>>=◌, >>=-eq-ok, ok-injective,
}
use nightfrost.Bytes.{Bytes, bytes_eq, bytes_eq_iff}
use nightfrost.Bytes.Order.{lex, lex_refl, lex_trans, eq_of_lex, lex_flip}
use nightfrost.Domain.Version.{LedgerVersion}
use nightfrost.Store.Error.{Error}
use nightfrost.Ledger.Arena.Operations.{ArenaHash, traverse}
use nightfrost.Ledger.Arena.Roots.{count_in}
use nightfrost.Ledger.Repair.Walk.{dag_is_complete}
use nightfrost.Ledger.Repair.Raise.{
  Backend, RootCounts, increment, contains_key, count_window, window_root_counts, RootCountRepair,
  raise_root_counts, repair_root_counts,
}
use nightfrost.Ledger.Repair.Raised.{IsDistinct, count_in-absent, repaired, raise_root_counts_lem}

-- How often a hash occurs.
abbrev pub occurrences : ArenaHash → List ArenaHash → ℕ
occurrences h [] = 0
occurrences h (k ∷ ks) = if bytes_eq h k then occurrences h ks + 1 else occurrences h ks

IsBefore : ArenaHash → ArenaHash × ℕ → Type 0
IsBefore k (j, n) = lex k j ≡ lt

IsOrdered : RootCounts → Type 0
IsOrdered [] = Unit {0}
IsOrdered ((k, n) ∷ counts) = All (IsBefore k) counts × IsOrdered counts

absent_after :
    (k : ArenaHash) (counts : RootCounts) → All (IsBefore k) counts → contains_key k counts ≡ false
unfolding IsBefore
absent_after k [] after = refl
absent_after k ((j, n) ∷ counts) after =
    ground (arith, bytes_eq_iff k j, lex_refl k, after.0, absent_after k counts after.1)

IsOrdered-IsDistinct : (counts : RootCounts) → IsOrdered counts → IsDistinct counts
unfolding IsOrdered
IsOrdered-IsDistinct [] ordered = tt
IsOrdered-IsDistinct ((k, n) ∷ counts) ordered =
    (absent_after k counts ordered.0, IsOrdered-IsDistinct counts ordered.1)

All-IsBefore_trans :
    (k j : ArenaHash) (counts : RootCounts)
    → lex k j ≡ lt
    → All (IsBefore j) counts
    → All (IsBefore k) counts
unfolding IsBefore
All-IsBefore_trans k j [] before after = tt
All-IsBefore_trans k j ((i, v) ∷ counts) before after =
    (lex_trans k j i before after.0, All-IsBefore_trans k j counts before after.1)

module _ (h : ArenaHash) where
  increment-All :
      (j : ArenaHash) (counts : RootCounts)
      → lex j h ≡ lt
      → All (IsBefore j) counts
      → All (IsBefore j) (increment h counts)
  unfolding increment IsBefore
  increment-All j [] before after = (before, tt)
  increment-All j ((i, n) ∷ counts) before after =
      elim (lex h i)
        as (λ o. All (IsBefore j) (elim o [
          | lt ↦ (h, 1) ∷ (i, n) ∷ counts
          | eq ↦ (i, n + 1) ∷ counts
          | gt ↦ (i, n) ∷ increment h counts
        ])) [
          | lt ↦ (before, after)
          | eq ↦ after
          | gt ↦ (after.0, increment-All j counts before after.1)
        ]

  increment-IsOrdered : (counts : RootCounts) → IsOrdered counts → IsOrdered (increment h counts)
  unfolding increment IsOrdered IsBefore
  increment-IsOrdered [] ordered = (tt, tt)
  increment-IsOrdered ((j, n) ∷ counts) ordered =
      placed (lex h j) refl (increment-IsOrdered counts ordered.1)
    where
      placed :
          (o : Ordering)
          → lex h j ≡ o
          → IsOrdered (increment h counts)
          → IsOrdered (elim o as (λ _. RootCounts) [
            | lt ↦ (h, 1) ∷ (j, n) ∷ counts
            | eq ↦ (j, n + 1) ∷ counts
            | gt ↦ (j, n) ∷ increment h counts
          ])
      placed lt e below = ((e, All-IsBefore_trans h j counts e ordered.0), ordered)
      placed eq e below = ordered
      placed gt e below = (increment-All j counts (lex_flip h j e) ordered.0, below)

  count_in-increment :
      (k : ArenaHash) (counts : RootCounts)
      → IsOrdered counts
      → count_in k (increment h counts)
        ≡ (if bytes_eq k h then count_in k counts + 1 else count_in k counts)
  unfolding increment IsOrdered IsBefore
  count_in-increment k [] ordered = refl
  count_in-increment k ((j, n) ∷ counts) ordered = ground (
    arith,
    eq_of_lex h j,
    lex_refl h,
    bytes_eq_iff k h,
    bytes_eq_iff k j,
    count_in-increment k counts ordered.1,
    λ (before : lex h j ≡ lt).
        count_in-absent h counts
          (absent_after h counts (All-IsBefore_trans h j counts before ordered.0)),
  )

tally : RootCounts → List ArenaHash → RootCounts
tally counts [] = counts
tally counts (h ∷ hs) = tally (increment h counts) hs

tally-IsOrdered :
    (counts : RootCounts) (hs : List ArenaHash) → IsOrdered counts → IsOrdered (tally counts hs)
unfolding tally
tally-IsOrdered counts [] ordered = ordered
tally-IsOrdered counts (h ∷ hs) ordered =
    tally-IsOrdered (increment h counts) hs (increment-IsOrdered h counts ordered)

count_in-tally :
    (k : ArenaHash) (counts : RootCounts) (hs : List ArenaHash)
    → IsOrdered counts
    → count_in k (tally counts hs) ≡ count_in k counts + occurrences k hs
unfolding tally
count_in-tally k counts [] ordered = omega arith
count_in-tally k counts (h ∷ hs) ordered = ground (
  arith,
  count_in-tally k (increment h counts) hs (increment-IsOrdered h counts ordered),
  count_in-increment h k counts ordered,
)

module _ (arena_root_hash : Bytes → LedgerVersion → Result Error ArenaHash) where
  abbrev pub hash_of : Bytes × LedgerVersion → Result Error ArenaHash
  hash_of (key, ledger_version) = arena_root_hash key ledger_version

  count_window-tally :
      (window : List (Bytes × LedgerVersion)) (counts : RootCounts) (hashes : List ArenaHash)
      → traverse hash_of window ≡ ok hashes
      → count_window arena_root_hash counts window ≡ ok (tally counts hashes)
  unfolding traverse tally
  count_window-tally [] counts [] e = refl
  count_window-tally [] counts (h ∷ hs) e = cc
  count_window-tally ((key, version) ∷ window) counts hashes e =
      let (h, first, later) = >>=-eq-ok (arena_root_hash key version) _ e in
      let (hs, rest, last) = >>=-eq-ok (traverse hash_of window) _ later in
      rw first (
        count_window-tally window (increment h counts) hs rest
        ∙ ap (λ l. ok (tally counts l)) (ok-injective last))

  -- After the repair at startup, the count of each hash is the number of blocks of the window whose
  -- ledger state has it as its root, unless there was more, or the hash was no root and its nodes were
  -- not all there: then it is as before. The window's keys have hashes, the counts are all flushed,
  -- and the walks from the hashes have enough fuel for their answers.
  pub repair_root_counts_lem :
      (B : Backend) (fuel : ℕ) (window : List (Bytes × LedgerVersion)) (hashes : List ArenaHash)
      (s : B.State) (complete : ArenaHash → Bool)
      → traverse hash_of window ≡ ok hashes
      → ((h : ArenaHash) → B.count s h ≡ count_in h (B.get_roots s))
      → ((h : ArenaHash) → dag_is_complete (B.get s) fuel h ≡ some (complete h))
      → (s_last : B.State) × (repair : RootCountRepair) × (repair_root_counts B arena_root_hash fuel
            window s
          ≡ ok (some (s_last, repair)))
        × ((h : ArenaHash)
            → count_in h (B.get_roots s_last)
              ≡ repaired (complete h) (count_in h (B.get_roots s)) (occurrences h hashes))
  unfolding repair_root_counts window_root_counts IsOrdered
  repair_root_counts_lem B fuel window hashes s complete hashed flushed walked =
      let (s_last, repair, run, counts) =
        raise_root_counts_lem B fuel (tally [] hashes) s complete
          (IsOrdered-IsDistinct (tally [] hashes) (tally-IsOrdered [] hashes tt)) flushed walked in
      (
        s_last,
        repair,
        ap
              (λ (r : Result Error RootCounts).
                r >>= (λ wanted. ok (raise_root_counts B fuel wanted s)))
              (count_window-tally window [] hashes hashed)
            ∙ ap ok run,
        λ h.
            counts h
            ∙ ap (repaired (complete h) (count_in h (B.get_roots s)))
                (count_in-tally h [] hashes tt ∙ omega arith),
      )
