-- ===== src/Ledger/Repair/Walk.antt =====
-- `dag_is_complete` of crates/nightfrost-core/src/domain/ledger/ledger_state.rs.
use nightfrost.Prelude.{
  ℕ, zero, suc, ◌≡◌, Bool, true, false, Option, none, some, List, [], ◌∷◌, ◌||◌,
}
use nightfrost.Bytes.{bytes_eq}
use nightfrost.Ledger.Arena.Operations.{ArenaHash}

-- `visited.contains(hash)`
unfoldable pub contains : ArenaHash → List ArenaHash → Bool
contains h [] = false
contains h (k ∷ ks) = bytes_eq h k || contains h ks

-- `frontier.extend(children)`: the frontier's top is its last element, which is the head here.
unfoldable pub extend : List ArenaHash → List ArenaHash → List ArenaHash
extend frontier [] = frontier
extend frontier (child ∷ children) = extend (child ∷ frontier) children

-- The nodes of the backend, each with its children.
abbrev pub Nodes : Type 0
Nodes = ArenaHash → Option (List ArenaHash)

-- The loop over the frontier; `none` when the fuel runs out.
unfoldable pub walk : Nodes → ℕ → List ArenaHash → List ArenaHash → Option Bool
walk get zero visited frontier = none
walk get (suc fuel) visited [] = some true
walk get (suc fuel) visited (hash ∷ frontier) = elim (contains hash visited) [
  | true ↦ walk get fuel visited frontier
  | false ↦ elim (get hash) [
    | some children ↦ walk get fuel (hash ∷ visited) (extend frontier children)
    | none ↦ some false
  ]
]

unfoldable pub dag_is_complete : Nodes → ℕ → ArenaHash → Option Bool
dag_is_complete get fuel hash = walk get fuel [] (hash ∷ [])

-- The three steps of the loop.
module _ (get : Nodes) (fuel : ℕ) (visited frontier : List ArenaHash) (h : ArenaHash) where
  pub walk-seen :
      contains h visited ≡ true
      → walk get (suc fuel) visited (h ∷ frontier) ≡ walk get fuel visited frontier
  unfolding walk
  walk-seen seen = rw (seen, walk)

  pub walk-missing :
      contains h visited ≡ false
      → get h ≡ none
      → walk get (suc fuel) visited (h ∷ frontier) ≡ some false
  unfolding walk
  walk-missing new missing = rw (new, missing, walk)

  pub walk-new :
      (children : List ArenaHash)
      → contains h visited ≡ false
      → get h ≡ some children
      → walk get (suc fuel) visited (h ∷ frontier)
        ≡ walk get fuel (h ∷ visited) (extend frontier children)
  unfolding walk
  walk-new children new found = rw (new, found, walk)
