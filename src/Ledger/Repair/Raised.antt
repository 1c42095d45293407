-- ===== src/Ledger/Repair/Raised.antt =====
-- What `raise_root_counts` of crates/nightfrost-core/src/domain/ledger/ledger_state.rs makes of the
-- counts.
use nightfrost.Prelude.{
  ℕ, zero, suc, ◌+◌, ◌-◌, ◌≡◌, refl, ap, ◌∙◌, Bool, true, false, ◌&&◌, not, some, List, [], ◌∷◌,
  ◌==◌, leb, if◌then◌else◌, arith, Bool-cases, inl, inr,
}
use nightfrost.Bytes.{bytes_eq, bytes_eq_iff, bytes_eq_refl}
use nightfrost.Ledger.Arena.Operations.{ArenaHash}
use nightfrost.Ledger.Arena.Roots.{count_in}
use nightfrost.Ledger.Repair.Walk.{Nodes, dag_is_complete}
use nightfrost.Ledger.Repair.Raise.{
  Backend, RootCounts, contains_key, RootCountRepair, count_strays, persist_times, raised, culled,
  raise_root, raise_roots, raise_root_counts,
}

-- Each hash stands once.
abbrev pub IsDistinct : RootCounts → Type 0
IsDistinct [] = Unit {0}
IsDistinct ((k, n) ∷ counts) = (contains_key k counts ≡ false) × IsDistinct counts

-- The count that the repair leaves: what is wanted, unless there is more, or the root is gone and
-- its DAG with it.
abbrev pub repaired : Bool → ℕ → ℕ → ℕ
repaired complete have want =
    if leb want have then have else if (have == 0) && not complete then have else want

pub count_in-absent :
    (h : ArenaHash) (counts : RootCounts) → contains_key h counts ≡ false → count_in h counts ≡ 0
count_in-absent h [] absent = refl
count_in-absent h ((k, n) ∷ counts) absent = ground (arith, count_in-absent h counts)

module _ (B : Backend) where
  count-persist_times :
      (n : ℕ) (k h : ArenaHash) (s : B.State)
      → B.count (persist_times B n k s) h ≡ (if bytes_eq h k then B.count s h + n else B.count s h)
  unfolding persist_times
  count-persist_times zero k h s = ground arith
  count-persist_times (suc n) k h s =
      ground (arith, count-persist_times n k h (B.persist k s), B.count-persist k h s)

  get-persist_times :
      (n : ℕ) (k : ArenaHash) (s : B.State) → B.get (persist_times B n k s) ≡ B.get s
  unfolding persist_times
  get-persist_times zero k s = refl
  get-persist_times (suc n) k s = get-persist_times n k (B.persist k s) ∙ B.get-persist k s

  raise_roots-nil :
      (fuel : ℕ) (stored : List (ArenaHash × ℕ)) (s : B.State) (repair : RootCountRepair)
      → raise_roots B fuel stored [] s repair ≡ some (s, repair)
  unfolding raise_roots
  raise_roots-nil fuel stored s repair = refl

  raise_roots-cons :
      (fuel : ℕ) (stored : List (ArenaHash × ℕ)) (root : ArenaHash × ℕ) (wanted : RootCounts)
      (s s_next : B.State) (repair repair_next : RootCountRepair)
      → raise_root B fuel stored root s repair ≡ some (s_next, repair_next)
      → raise_roots B fuel stored (root ∷ wanted) s repair
        ≡ raise_roots B fuel stored wanted s_next repair_next
  unfolding raise_roots
  raise_roots-cons fuel stored root wanted s s_next repair repair_next step = rw (step, raise_roots)

  module _ (fuel : ℕ) (stored : List (ArenaHash × ℕ)) (get : Nodes) (complete : ArenaHash → Bool)
      (walked : (h : ArenaHash) → dag_is_complete get fuel h ≡ some (complete h)) where
    -- One root: its count is repaired, every other stays, and the nodes stay.
    raise_root_lem :
        (k : ArenaHash) (want : ℕ) (s : B.State) (repair : RootCountRepair)
        → B.get s ≡ get
        → B.count s k ≡ count_in k stored
        → (s_next : B.State) × (repair_next : RootCountRepair) × (raise_root B fuel stored
              (k, want)
              s
              repair
            ≡ some (s_next, repair_next))
          × (B.get s_next ≡ get)
          × ((h : ArenaHash)
              → B.count s_next h ≡ (
                  if bytes_eq h k
                  then repaired (complete k) (count_in k stored) want
                  else B.count s h))
    unfolding raise_root
    raise_root_lem k want s repair same_nodes same_count =
        let have = count_in k stored in
        let after = raised B (want - have) k s repair in
        let answer : dag_is_complete (B.get s) fuel k ≡ some (complete k) =
          ap (λ nodes. dag_is_complete nodes fuel k) same_nodes ∙ walked k in
        elim (Bool-cases (want - have == 0)) [
          | inl enough ↦ (
            s,
            repair,
            rw enough,
            same_nodes,
            λ h. ground (arith, enough, same_count, bytes_eq_iff h k),
          )
          | inr short ↦ elim (Bool-cases (have == 0)) [
            | inr rooted ↦ (
              after.0,
              after.1,
              rw (short, rooted),
              get-persist_times (want - have) k s ∙ same_nodes,
              λ h. ground (
                arith,
                short,
                rooted,
                same_count,
                bytes_eq_iff h k,
                count-persist_times (want - have) k h s,
              ),
            )
            | inl gone ↦ elim (Bool-cases (complete k)) [
              | inl whole ↦ (
                after.0,
                after.1,
                rw (short, gone, answer, whole),
                get-persist_times (want - have) k s ∙ same_nodes,
                λ h. ground (
                  arith,
                  short,
                  gone,
                  whole,
                  same_count,
                  bytes_eq_iff h k,
                  count-persist_times (want - have) k h s,
                ),
              )
              | inr broken ↦ (
                (culled B s repair).0,
                (culled B s repair).1,
                rw (short, gone, answer, broken),
                same_nodes,
                λ h. ground (arith, short, gone, broken, same_count, bytes_eq_iff h k),
              )
            ]
          ]
        ]

    IsPending : RootCounts → B.State → Type 0
    IsPending wanted s =
        (h : ArenaHash) → contains_key h wanted ≡ true → B.count s h ≡ count_in h stored

    raise_roots_lem :
        (wanted : RootCounts) (s : B.State) (repair : RootCountRepair)
        → IsDistinct wanted
        → B.get s ≡ get
        → IsPending wanted s
        → (s_last : B.State) × (repair_last : RootCountRepair) × (raise_roots B fuel stored wanted s
              repair
            ≡ some (s_last, repair_last))
          × ((h : ArenaHash)
              → B.count s_last h ≡ (
                  if contains_key h wanted
                  then repaired (complete h) (count_in h stored) (count_in h wanted)
                  else B.count s h))
    unfolding IsPending
    raise_roots_lem [] s repair distinct same_nodes pending =
        (s, repair, raise_roots-nil fuel stored s repair, λ h. refl)
    raise_roots_lem ((k, want) ∷ wanted) s repair distinct same_nodes pending =
        let (s_next, repair_next, step, nodes_next, count_next) =
          raise_root_lem k want s repair same_nodes (pending k (ground (arith, bytes_eq_refl k))) in
        let still : IsPending wanted s_next = λ h inside.
          ground (arith, count_next h, bytes_eq_iff h k, distinct.0, inside, pending h) in
        let (s_last, repair_last, rest, count_last) =
          raise_roots_lem wanted s_next repair_next distinct.1 nodes_next still in
        (
          s_last,
          repair_last,
          raise_roots-cons fuel stored (k, want) wanted s s_next repair repair_next step ∙ rest,
          λ h. ground (arith, count_last h, count_next h, bytes_eq_iff h k, distinct.0),
        )

  -- Nothing raised yet.
  abbrev start : RootCounts → B.State → RootCountRepair
  start wanted s = record {
    raised_roots = 0;
    raised_total = 0;
    culled_roots = 0;
    strays = count_strays wanted (B.get_roots s);
  }

  raise_root_counts_of :
      (fuel : ℕ) (wanted : RootCounts) (s s_last : B.State) (repair : RootCountRepair)
      → raise_roots B fuel (B.get_roots s) wanted s (start wanted s) ≡ some (s_last, repair)
      → raise_root_counts B fuel wanted s ≡ some (B.flush_all_changes_to_db s_last, repair)
  unfolding raise_root_counts
  raise_root_counts_of fuel wanted s s_last repair run = rw (run, raise_root_counts)

  -- After the repair the count of each hash is the one wanted, unless there was more, or the hash was
  -- no root and its nodes were not all there: then it is as before. A hash that is not wanted keeps
  -- its count. The wanted hashes are distinct, the counts are all flushed, and the walks from the
  -- hashes have enough fuel for their answers.
  pub raise_root_counts_lem :
      (fuel : ℕ) (wanted : RootCounts) (s : B.State) (complete : ArenaHash → Bool)
      → IsDistinct wanted
      → ((h : ArenaHash) → B.count s h ≡ count_in h (B.get_roots s))
      → ((h : ArenaHash) → dag_is_complete (B.get s) fuel h ≡ some (complete h))
      → (s_last : B.State) × (repair : RootCountRepair) × (raise_root_counts B fuel wanted s
          ≡ some (s_last, repair))
        × ((h : ArenaHash)
            → count_in h (B.get_roots s_last)
              ≡ repaired (complete h) (count_in h (B.get_roots s)) (count_in h wanted))
  unfolding IsPending
  raise_root_counts_lem fuel wanted s complete distinct flushed walked =
      let stored = B.get_roots s in
      let (s_last, repair, run, counts) =
        raise_roots_lem fuel stored (B.get s) complete walked wanted s (start wanted s) distinct
          refl (λ h inside. flushed h) in
      (
        B.flush_all_changes_to_db s_last,
        repair,
        raise_root_counts_of fuel wanted s s_last repair run,
        λ h.
            B.get_roots-flush s_last h
            ∙ counts h
            ∙ ground (arith, flushed h, count_in-absent h wanted),
      )
