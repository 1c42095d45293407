-- ===== src/Ledger/Repair/Enough.antt =====
-- Fuel that is enough for the walk of `dag_is_complete` in
-- crates/nightfrost-core/src/domain/ledger/ledger_state.rs.
use nightfrost.Prelude.{
  ℕ, zero, suc, ◌+◌, ◌≤◌, ◌<◌, ◌≡◌, ◌↔◌, refl, ap, ◌∙◌, Bool, true, false, Option, none, some, List,
  [], ◌∷◌, length, arith, Bool-cases, inl, inr, Option-cases, if◌then◌else◌,
}
use nightfrost.Bytes.{bytes_eq_iff}
use nightfrost.Ledger.Arena.Operations.{ArenaHash}
use nightfrost.Ledger.Repair.Complete.{HasMissing, dag_is_complete_iff}
use nightfrost.Ledger.Repair.Walk.{
  contains, extend, Nodes, walk, walk-seen, walk-missing, walk-new, dag_is_complete,
}

length-extend :
    (frontier children : List ArenaHash)
    → length (extend frontier children) ≡ length frontier + length children
unfolding extend
length-extend frontier [] = omega arith
length-extend frontier (child ∷ children) = omega (arith, length-extend (child ∷ frontier) children)

module _ (get : Nodes) where
  -- The references out of a node.
  abbrev pub references : ArenaHash → ℕ
  references h = elim (get h) [ none ↦ 0 | some children ↦ length children ]

  -- The references out of the nodes of a list that are not visited yet.
  unfoldable pub unvisited : List ArenaHash → List ArenaHash → ℕ
  unvisited visited [] = 0
  unvisited visited (h ∷ hs) =
      (if contains h visited then 0 else references h) + unvisited visited hs

  unvisited-visit_le :
      (h : ArenaHash) (visited hs : List ArenaHash)
      → unvisited (h ∷ visited) hs ≤ unvisited visited hs
  unfolding unvisited contains
  unvisited-visit_le h visited [] = omega arith
  unvisited-visit_le h visited (k ∷ hs) = ground (arith, unvisited-visit_le h visited hs)

  unvisited-visit :
      (h : ArenaHash) (visited hs : List ArenaHash)
      → contains h hs ≡ true
      → contains h visited ≡ false
      → unvisited (h ∷ visited) hs + references h ≤ unvisited visited hs
  unfolding unvisited contains
  unvisited-visit h visited [] inside new = cc
  unvisited-visit h visited (k ∷ hs) inside new = ground (
    arith,
    bytes_eq_iff h k,
    bytes_eq_iff k h,
    unvisited-visit_le h visited hs,
    unvisited-visit h visited hs,
  )

  -- The hashes that have nodes are among `hs`.
  module _ (hs : List ArenaHash)
      (all_nodes : (h : ArenaHash) (children : List ArenaHash)
        → get h ≡ some children
        → contains h hs ≡ true) where
    walk_returns :
        (fuel : ℕ) (visited frontier : List ArenaHash)
        → length frontier + unvisited visited hs < fuel
        → (answer : Bool) × (walk get fuel visited frontier ≡ some answer)
    unfolding walk
    walk_returns zero visited frontier enough = ground (arith, enough)
    walk_returns (suc fuel) visited [] enough = (true, refl)
    walk_returns (suc fuel) visited (h ∷ frontier) enough = elim (Bool-cases (contains h visited)) [
      | inl seen ↦
          let (answer, later) = walk_returns fuel visited frontier (omega (arith, enough)) in
          (answer, walk-seen get fuel visited frontier h seen ∙ later)
      | inr new ↦ elim (Option-cases (get h)) [
        | inl missing ↦ (false, walk-missing get fuel visited frontier h new missing)
        | inr (children, found) ↦
            let known : references h ≡ length children =
              ap (λ (o : Option (List ArenaHash)). elim o [ none ↦ 0 | some cs ↦ length cs ])
                found in
            let (answer, later) = walk_returns fuel (h ∷ visited) (extend frontier children) (
              omega (
                arith,
                enough,
                known,
                length-extend frontier children,
                unvisited-visit h visited hs (all_nodes h children found) new,
              )) in
            (answer, walk-new get fuel visited frontier h children new found ∙ later)
      ]
    ]

    -- The walk comes to an end with the right answer, no exactly where a hash that is reached from
    -- the root has no node: with all the nodes that there are in a list, it takes as many steps at
    -- most as they have references, and two.
    pub dag_is_complete_decides :
        (root : ArenaHash)
        → (answer : Bool) × (dag_is_complete get (unvisited [] hs + 2) root ≡ some answer)
          × ((answer ≡ false) ↔ HasMissing get root)
    unfolding dag_is_complete
    dag_is_complete_decides root =
        let (answer, e) = walk_returns (unvisited [] hs + 2) [] (root ∷ []) (omega arith) in
        (answer, e, dag_is_complete_iff get root (unvisited [] hs + 2) answer e)
