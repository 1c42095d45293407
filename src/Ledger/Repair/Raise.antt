-- ===== src/Ledger/Repair/Raise.antt =====
-- `window_root_counts`, `raise_root_counts` and `repair_root_counts` of
-- crates/nightfrost-core/src/domain/ledger/ledger_state.rs.
use Prim.Native.Nat.Ordering.{lt, eq, gt}
use nightfrost.Prelude.{
  ℕ, zero, suc, ◌+◌, ◌-◌, ◌≡◌, Bool, true, false, ◌||◌, not, Option, none, some, List, [], ◌∷◌,
  ◌==◌, if◌then◌else◌, Result, ok, ◌>>=◌,
}
use nightfrost.Bytes.{Bytes, bytes_eq}
use nightfrost.Bytes.Order.{lex}
use nightfrost.Store.Error.{Error}
use nightfrost.Domain.Version.{LedgerVersion}
use nightfrost.Ledger.Arena.Operations.{ArenaHash}
use nightfrost.Ledger.Arena.Roots.{count_in}
use nightfrost.Ledger.Repair.Walk.{Nodes, dag_is_complete}

-- storage-core's `StorageBackend`: the roots' counts, and what the persists that are not flushed yet
-- make of them.
pub record Backend : Type 1 where
  pub State : Type 0
  pub get_roots : State → List (ArenaHash × ℕ)
  pub get : State → Nodes
  pub persist : ArenaHash → State → State
  pub flush_all_changes_to_db : State → State
  pub count : State → ArenaHash → ℕ
  pub count-persist :
      (k h : ArenaHash) (s : State)
      → count (persist k s) h ≡ (if bytes_eq h k then count s h + 1 else count s h)
  pub get-persist : (k : ArenaHash) (s : State) → get (persist k s) ≡ get s
  pub get_roots-flush :
      (s : State) (h : ArenaHash) → count_in h (get_roots (flush_all_changes_to_db s)) ≡ count s h

-- `BTreeMap<ArenaHash, u32>`, in the order of its keys.
abbrev pub RootCounts : Type 0
RootCounts = List (ArenaHash × ℕ)

-- `*wanted.entry(hash).or_insert(0) += 1`
unfoldable pub increment : ArenaHash → RootCounts → RootCounts
increment h [] = (h, 1) ∷ []
increment h ((k, n) ∷ counts) =
    let rest = increment h counts in
    elim (lex h k) [ lt ↦ (h, 1) ∷ (k, n) ∷ counts | eq ↦ (k, n + 1) ∷ counts | gt ↦ (k, n) ∷ rest ]

abbrev pub contains_key : ArenaHash → RootCounts → Bool
contains_key h [] = false
contains_key h ((k, n) ∷ counts) = bytes_eq h k || contains_key h counts

pub record RootCountRepair : Type 0 where
  pub raised_roots : ℕ
  pub raised_total : ℕ
  pub culled_roots : ℕ
  pub strays : ℕ

-- `stored.keys().filter(|hash| !wanted.contains_key(hash)).count()`
abbrev pub count_strays : RootCounts → List (ArenaHash × ℕ) → ℕ
count_strays wanted [] = 0
count_strays wanted ((h, n) ∷ stored) =
    let others = count_strays wanted stored in
    if not (contains_key h wanted) then others + 1 else others

module _ (arena_root_hash : Bytes → LedgerVersion → Result Error ArenaHash) where
  abbrev pub count_window : RootCounts → List (Bytes × LedgerVersion) → Result Error RootCounts
  count_window wanted [] = ok wanted
  count_window wanted ((key, ledger_version) ∷ window) =
      arena_root_hash key ledger_version >>= λ hash. count_window (increment hash wanted) window

  unfoldable pub window_root_counts : List (Bytes × LedgerVersion) → Result Error RootCounts
  window_root_counts window = count_window [] window

module _ (B : Backend) where
  -- `for _ in 0..missing { backend.persist(hash) }`
  unfoldable pub persist_times : ℕ → ArenaHash → B.State → B.State
  persist_times zero h s = s
  persist_times (suc n) h s = persist_times n h (B.persist h s)

  abbrev pub raised : ℕ → ArenaHash → B.State → RootCountRepair → B.State × RootCountRepair
  raised missing h s repair = (
    persist_times missing h s,
    record {
      raised_roots = repair.raised_roots + 1;
      raised_total = repair.raised_total + missing;
      culled_roots = repair.culled_roots;
      strays = repair.strays;
    },
  )

  abbrev pub culled : B.State → RootCountRepair → B.State × RootCountRepair
  culled s repair = (
    s,
    record {
      raised_roots = repair.raised_roots;
      raised_total = repair.raised_total;
      culled_roots = repair.culled_roots + 1;
      strays = repair.strays;
    },
  )

  -- One wanted root; `none` when the walk's fuel runs out.
  unfoldable pub raise_root :
      ℕ
      → List (ArenaHash × ℕ)
      → ArenaHash × ℕ
      → B.State
      → RootCountRepair
      → Option (B.State × RootCountRepair)
  raise_root fuel stored (hash, want) s repair =
      let have = count_in hash stored in
      let missing = want - have in
      if missing == 0
      then some (s, repair)
      else if have == 0
      then elim (dag_is_complete (B.get s) fuel hash) [
        | none ↦ none
        | some true ↦ some (raised missing hash s repair)
        | some false ↦ some (culled s repair)
      ]
      else some (raised missing hash s repair)

  unfoldable pub raise_roots :
      ℕ
      → List (ArenaHash × ℕ)
      → RootCounts
      → B.State
      → RootCountRepair
      → Option (B.State × RootCountRepair)
  raise_roots fuel stored [] s repair = some (s, repair)
  raise_roots fuel stored (root ∷ wanted) s repair = elim (raise_root fuel stored root s repair) [
    | none ↦ none
    | some (s_next, repair_next) ↦ raise_roots fuel stored wanted s_next repair_next
  ]

  unfoldable pub raise_root_counts : ℕ → RootCounts → B.State → Option (B.State × RootCountRepair)
  raise_root_counts fuel wanted s =
      let stored = B.get_roots s in
      let repair : RootCountRepair = record {
        raised_roots = 0;
        raised_total = 0;
        culled_roots = 0;
        strays = count_strays wanted stored;
      } in
      elim (raise_roots fuel stored wanted s repair) [
        | none ↦ none
        | some (s_raised, repair_raised) ↦ some (B.flush_all_changes_to_db s_raised, repair_raised)
      ]

  unfoldable pub repair_root_counts :
      (Bytes → LedgerVersion → Result Error ArenaHash)
      → ℕ
      → List (Bytes × LedgerVersion)
      → B.State
      → Result Error (Option (B.State × RootCountRepair))
  repair_root_counts arena_root_hash fuel window s = do
    wanted ← window_root_counts arena_root_hash window
    ok (raise_root_counts fuel wanted s)
