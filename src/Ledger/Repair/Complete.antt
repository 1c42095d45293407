-- ===== src/Ledger/Repair/Complete.antt =====
-- What the answer of `dag_is_complete` in
-- crates/nightfrost-core/src/domain/ledger/ledger_state.rs means.
use nightfrost.Prelude.{
  ℕ, zero, suc, ◌≡◌, ◌↔◌, refl, ap, sym, subst, ◌∙◌, Bool, true, false, none, some, List, [], ◌∷◌,
  ◌||◌, arith, Bool-cases, inl, inr, Option-cases,
}
use nightfrost.Bytes.{bytes_eq, bytes_eq_iff, bytes_eq→eq, bytes_eq_refl}
use nightfrost.Ledger.Arena.Operations.{ArenaHash}
use nightfrost.Ledger.Repair.Walk.{
  contains, extend, Nodes, walk, walk-seen, walk-missing, walk-new, dag_is_complete,
}

-- The hashes of a DAG: its root, and the children of the nodes in it.
pub data Reaches (get : Nodes) (root : ArenaHash) : ArenaHash → Type 0 where
  at_root : Reaches get root root
  to_child :
      {h child : ArenaHash} {children : List ArenaHash}
      → Reaches get root h
      → get h ≡ some children
      → contains child children ≡ true
      → Reaches get root child

abbrev pub IsMissing : Nodes → ArenaHash → Type 0
IsMissing get h = get h ≡ none

abbrev pub HasNode : Nodes → ArenaHash → Type 0
HasNode get h = (children : List ArenaHash) × (get h ≡ some children)

contains-extend :
    (h : ArenaHash) (frontier children : List ArenaHash)
    → contains h (extend frontier children) ≡ (contains h children || contains h frontier)
unfolding contains extend
contains-extend h frontier [] = refl
contains-extend h frontier (child ∷ children) =
    ground (arith, contains-extend h (child ∷ frontier) children)

module _ (get : Nodes) (root : ArenaHash) where
  -- All of a list are in the DAG.
  AllReached : List ArenaHash → Type 0
  AllReached hs = (h : ArenaHash) → contains h hs ≡ true → Reaches get root h

  -- The visited nodes are there, with their children visited or to be visited.
  IsClosed : List ArenaHash → List ArenaHash → Type 0
  IsClosed visited frontier =
      (h : ArenaHash)
      → contains h visited ≡ true
      → (children : List ArenaHash) × (get h ≡ some children)
        × ((child : ArenaHash)
            → contains child children ≡ true
            → (contains child visited || contains child frontier) ≡ true)

  walk-false :
      (fuel : ℕ) (visited frontier : List ArenaHash)
      → AllReached frontier
      → walk get fuel visited frontier ≡ some false
      → (h : ArenaHash) × Reaches get root h × IsMissing get h
  unfolding walk AllReached contains
  walk-false zero visited frontier reached e = cc
  walk-false (suc fuel) visited [] reached e = cc
  walk-false (suc fuel) visited (h ∷ frontier) reached e = elim (Bool-cases (contains h visited)) [
    | inl seen ↦
        walk-false fuel visited frontier (λ k inside. reached k (ground (arith, inside)))
          (sym (walk-seen get fuel visited frontier h seen) ∙ e)
    | inr new ↦ elim (Option-cases (get h)) [
      | inl missing ↦ (h, reached h (ground (arith, bytes_eq_refl h)), missing)
      | inr (children, found) ↦
          walk-false fuel (h ∷ visited) (extend frontier children)
            (λ k inside. elim (Bool-cases (contains k children)) [
              | inl child ↦ to_child (reached h (ground (arith, bytes_eq_refl h))) found child
              | inr other ↦
                  reached k (ground (arith, inside, other, contains-extend k frontier children))
            ])
            (sym (walk-new get fuel visited frontier h children new found) ∙ e)
    ]
  ]

  -- A successful walk ends with a closed list of nodes.
  walk-true :
      (fuel : ℕ) (visited frontier : List ArenaHash)
      → IsClosed visited frontier
      → walk get fuel visited frontier ≡ some true
      → (all : List ArenaHash) × IsClosed all []
        × ((h : ArenaHash)
            → (contains h visited || contains h frontier) ≡ true
            → contains h all ≡ true)
  unfolding walk IsClosed contains
  walk-true zero visited frontier closed e = cc
  walk-true (suc fuel) visited [] closed e = (visited, closed, λ h inside. ground (arith, inside))
  walk-true (suc fuel) visited (h ∷ frontier) closed e = elim (Bool-cases (contains h visited)) [
    | inl seen ↦
        let still : IsClosed visited frontier = λ k inside.
          let (children, found, below) = closed k inside in
          (
            children,
            found,
            λ child at. ground (arith, below child at, seen, bytes_eq_iff child h),
          ) in
        let (all, whole, kept) =
          walk-true fuel visited frontier still
            (sym (walk-seen get fuel visited frontier h seen) ∙ e) in
        (all, whole, λ k inside. kept k (ground (arith, inside, seen, bytes_eq_iff k h)))
    | inr new ↦ elim (Option-cases (get h)) [
      | inl missing ↦
          let stopped = sym (walk-missing get fuel visited frontier h new missing) ∙ e in cc
      | inr (children, found) ↦
          let still : IsClosed (h ∷ visited) (extend frontier children) = λ k inside.
            elim (Bool-cases (bytes_eq k h)) [
              | inl same ↦ (
                children,
                ap get (bytes_eq→eq k h same) ∙ found,
                λ child at. ground (arith, at, contains-extend child frontier children),
              )
              | inr other ↦
                  let (others, there, below) = closed k (ground (arith, inside, other)) in
                  (
                    others,
                    there,
                    λ child at.
                        ground (arith, below child at, contains-extend child frontier children),
                  )
            ] in
          let (all, whole, kept) =
            walk-true fuel (h ∷ visited) (extend frontier children) still
              (sym (walk-new get fuel visited frontier h children new found) ∙ e) in
          (
            all,
            whole,
            λ k inside. kept k (ground (arith, inside, contains-extend k frontier children)),
          )
    ]
  ]

  reached-contained :
      (all : List ArenaHash)
      → IsClosed all []
      → contains root all ≡ true
      → {h : ArenaHash} → Reaches get root h
      → contains h all ≡ true
  unfolding IsClosed contains
  reached-contained all closed start at_root = start
  reached-contained all closed start (to_child {h} {child} {children} reached found at) =
      let (others, there, below) = closed h (reached-contained all closed start reached) in
      let same : others ≡ children = (let twice = sym there ∙ found in cc) in
      ground (arith, below child (ap (contains child) same ∙ at))

  -- Where the walk answers yes, every hash that is reached from the root has its node.
  pub reached-HasNode :
      (fuel : ℕ) (h : ArenaHash)
      → dag_is_complete get fuel root ≡ some true
      → Reaches get root h
      → HasNode get h
  unfolding dag_is_complete IsClosed contains
  reached-HasNode fuel h e reached =
      let (all, closed, kept) = walk-true fuel [] (root ∷ []) (λ k inside. cc) e in
      let (children, found, below) =
        closed h
          (reached-contained all closed (kept root (ground (arith, bytes_eq_refl root))) reached) in
      (children, found)

  abbrev pub HasMissing : Type 0
  HasMissing = (h : ArenaHash) × Reaches get root h × IsMissing get h

  -- The walk answers no exactly where some hash that is reached from the root has no node.
  pub dag_is_complete_iff :
      (fuel : ℕ) (answer : Bool)
      → dag_is_complete get fuel root ≡ some answer
      → (answer ≡ false) ↔ HasMissing
  unfolding dag_is_complete AllReached contains
  dag_is_complete_iff fuel true e = (
    λ differ. cc,
    λ (h, reached, missing).
        let (children, found) = reached-HasNode fuel h e reached in
        let twice = sym missing ∙ found in cc,
  )
  dag_is_complete_iff fuel false e = (
    λ same.
        walk-false fuel [] (root ∷ [])
          (λ k inside.
            let same : root ≡ k = sym (bytes_eq→eq k root (ground (arith, inside))) in
            subst (Reaches get root) same at_root)
          e,
    λ missing. refl,
  )
