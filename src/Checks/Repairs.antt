-- ===== src/Checks/Repairs.antt =====
-- The theorems on the repair of root counts, at a DAG of two nodes whose root is under-counted.
use nightfrost.Prelude.{
  ℕ, ◌+◌, ◌≡◌, ◌↔◌, refl, Bool, true, false, none, some, List, [], ◌∷◌, if◌then◌else◌, arith, ok,
  Result,
}
use nightfrost.Bytes.{Bytes, bytes_eq, bytes_eq_iff}
use nightfrost.Domain.Version.{LedgerVersion}
use nightfrost.Store.Error.{Error}
use nightfrost.Ledger.Arena.Operations.{ArenaHash, traverse}
use nightfrost.Ledger.Arena.Roots.{count_in}
use nightfrost.Ledger.Repair.Walk.{Nodes, dag_is_complete, contains}
use nightfrost.Ledger.Repair.Complete.{HasMissing}
use nightfrost.Ledger.Repair.Enough.{unvisited, dag_is_complete_decides}
use nightfrost.Ledger.Repair.Raise.{Backend, RootCountRepair, repair_root_counts}
use nightfrost.Ledger.Repair.Raised.{repaired}
use nightfrost.Ledger.Repair.Window.{occurrences, repair_root_counts_lem}

-- A backend whose persists are counted at once, over two nodes: 9 has the child 7.
abbrev two_nodes : Nodes
two_nodes h =
    if bytes_eq h (9 ∷ [])
    then some ((7 ∷ []) ∷ [])
    else if bytes_eq h (7 ∷ [])
    then some []
    else none

abbrev bump : ArenaHash → List (ArenaHash × ℕ) → List (ArenaHash × ℕ)
bump k [] = (k, 1) ∷ []
bump k ((j, n) ∷ roots) =
    let rest = bump k roots in if bytes_eq k j then (j, n + 1) ∷ roots else (j, n) ∷ rest

count_in-bump :
    (k h : ArenaHash) (roots : List (ArenaHash × ℕ))
    → count_in h (bump k roots) ≡ (if bytes_eq h k then count_in h roots + 1 else count_in h roots)
count_in-bump k h [] = refl
count_in-bump k h ((j, n) ∷ roots) =
    ground (arith, bytes_eq_iff k j, bytes_eq_iff h j, bytes_eq_iff h k, count_in-bump k h roots)

abbrev eager : Backend
eager = record {
  State = List (ArenaHash × ℕ);
  get_roots = λ s. s;
  get = λ s. two_nodes;
  persist = bump;
  flush_all_changes_to_db = λ s. s;
  count = λ s h. count_in h s;
  count-persist = count_in-bump;
  get-persist = λ k s. refl;
  get_roots-flush = λ s h. refl;
}

abbrev nodes_list : List ArenaHash
nodes_list = (9 ∷ []) ∷ (7 ∷ []) ∷ []

two_nodes_listed :
    (h : ArenaHash) (children : List ArenaHash)
    → two_nodes h ≡ some children
    → contains h nodes_list ≡ true
unfolding contains
two_nodes_listed h children e = ground (arith, e)

dag_is_complete_decides_example :
    (answer : Bool) × (dag_is_complete two_nodes (unvisited two_nodes [] nodes_list + 2) (9 ∷ [])
      ≡ some answer)
    × ((answer ≡ false) ↔ HasMissing two_nodes (9 ∷ []))
dag_is_complete_decides_example =
    dag_is_complete_decides two_nodes nodes_list two_nodes_listed (9 ∷ [])

-- Two blocks have the root 9, which is stored once.
abbrev hash_by_key : Bytes → LedgerVersion → Result Error ArenaHash
hash_by_key key version = ok key

abbrev stored : List (ArenaHash × ℕ)
stored = (9 ∷ [], 1) ∷ []

abbrev enough : ℕ
enough = unvisited two_nodes [] nodes_list + 2

abbrev is_whole : ArenaHash → Bool
is_whole h = (dag_is_complete_decides two_nodes nodes_list two_nodes_listed h).0

abbrev window : List (Bytes × LedgerVersion)
window = (9 ∷ [], LedgerVersion.v9) ∷ (9 ∷ [], LedgerVersion.v9) ∷ []

abbrev hashes : List ArenaHash
hashes = (9 ∷ []) ∷ (9 ∷ []) ∷ []

hashed :
    traverse (λ (entry : Bytes × LedgerVersion). hash_by_key entry.0 entry.1) window ≡ ok hashes
unfolding traverse
hashed = refl

repair_root_counts_lem_example :
    (s_last : List (ArenaHash × ℕ)) × (repair : RootCountRepair) × (repair_root_counts eager
        hash_by_key enough window stored
      ≡ ok (some (s_last, repair)))
    × ((h : ArenaHash)
        → count_in h s_last ≡ repaired (is_whole h) (count_in h stored) (occurrences h hashes))
repair_root_counts_lem_example =
    repair_root_counts_lem hash_by_key eager enough window hashes stored is_whole hashed (λ h. refl)
      (λ h. (dag_is_complete_decides two_nodes nodes_list two_nodes_listed h).1)
