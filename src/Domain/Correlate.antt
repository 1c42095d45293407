-- ===== src/Domain/Correlate.antt =====
-- `correlate_contract_action_id` of crates/nightfrost-core/src/domain.rs: the action of a
-- transaction that emitted one of its contract events.
use nightfrost.Prelude.{
  ℕ, ◌≡◌, ◌↔◌, ◌⊎◌, ap, refl, All, Bool, true, false, ◌&&◌, Option, none, some, List, [], ◌∷◌,
  arith, if◌then◌else◌,
}
use nightfrost.Bytes.{Bytes, bytes_eq, bytes_eq_iff}
use nightfrost.Domain.{Text, LedgerEvent, ContractAttributes, deploy, call, update}
use nightfrost.Domain.Event.{contract_entry_point}

-- An action's id, its contract's address and its attributes.
abbrev pub Action : Type 0
Action = ℕ × Bytes × ContractAttributes

-- A call of the entry point, at the address.
unfoldable pub is_match : Bytes → Bytes → Action → Bool
is_match address entry_point (_, at, call action_entry_point) =
    bytes_eq action_entry_point entry_point && bytes_eq at address
is_match address entry_point (_, at, deploy) = false
is_match address entry_point (_, at, update) = false

-- The loop over the actions; `matched` is the one match so far.
correlate_loop : Bytes → Bytes → Option ℕ → List Action → Option ℕ
correlate_loop address entry_point matched [] = matched
correlate_loop address entry_point matched (a ∷ actions) = elim (is_match address entry_point a) [
  | true ↦ elim matched [
    | some _ ↦ none
    | none ↦ correlate_loop address entry_point (some a.0) actions
  ]
  | false ↦ correlate_loop address entry_point matched actions
]

unfoldable pub correlate_contract_action_id : LedgerEvent → List Action → Option ℕ
unfolding contract_entry_point correlate_loop is_match
correlate_contract_action_id event actions = elim event.contract_address [
  | none ↦ none
  | some address ↦ elim (contract_entry_point event.attributes) [
    | none ↦ none
    | some entry_point ↦ correlate_loop address entry_point none actions
  ]
]

-- The ids of all calls of the entry point at the address.
abbrev calls_of : Bytes → Bytes → List Action → List ℕ
calls_of address entry_point [] = []
calls_of address entry_point (a ∷ actions) =
    let rest = calls_of address entry_point actions in
    if is_match address entry_point a then a.0 ∷ rest else rest

correlate_loop-some :
    (address entry_point : Bytes) (m : ℕ) (actions : List Action) (id : ℕ)
    → (correlate_loop address entry_point (some m) actions ≡ some id)
      ↔ (m ∷ calls_of address entry_point actions ≡ id ∷ [])
unfolding correlate_loop
correlate_loop-some address entry_point m [] id = (λ h. cc, λ h. ground arith)
correlate_loop-some address entry_point m (a ∷ actions) id =
    let ih = correlate_loop-some address entry_point m actions id in ground (arith, ih)

correlate_loop-none :
    (address entry_point : Bytes) (actions : List Action) (id : ℕ)
    → (correlate_loop address entry_point none actions ≡ some id)
      ↔ (calls_of address entry_point actions ≡ id ∷ [])
unfolding correlate_loop
correlate_loop-none address entry_point [] id = (λ h. cc, λ h. cc)
correlate_loop-none address entry_point (a ∷ actions) id = ground (
  arith,
  correlate_loop-none address entry_point actions id,
  correlate_loop-some address entry_point a.0 actions id,
)

-- The action is a call of the entry point at the address.
abbrev pub IsCallOf : Bytes → Bytes → Action → Type 0
IsCallOf address entry_point (id, at, attributes) = (at ≡ address) × (attributes ≡ call entry_point)

-- The action of that id, and no other one, is a call of the entry point at the address.
abbrev pub IsOnlyCall : Bytes → Bytes → ℕ → List Action → Type 0
IsOnlyCall address entry_point id [] = ⊥
IsOnlyCall address entry_point id (a ∷ actions) =
    (IsCallOf address entry_point a
      × (a.0 ≡ id)
      × All (λ b. ¬ IsCallOf address entry_point b) actions)
    ⊎ ((¬ IsCallOf address entry_point a) × IsOnlyCall address entry_point id actions)

called : Text → ContractAttributes → Text
called other deploy = other
called other update = other
called other (call entry_point) = entry_point

is_match_iff :
    (address entry_point : Bytes) (a : Action)
    → (is_match address entry_point a ≡ true) ↔ IsCallOf address entry_point a
unfolding is_match called
is_match_iff address entry_point (id, at, deploy) = (λ h. cc, λ h. cc)
is_match_iff address entry_point (id, at, update) = (λ h. cc, λ h. cc)
is_match_iff address entry_point (id, at, call other) = ground (
  arith,
  bytes_eq_iff other entry_point,
  bytes_eq_iff at address,
  λ (e : call other ≡ call entry_point). ap (called other) e,
)

calls_of-none :
    (address entry_point : Bytes) (actions : List Action)
    → (calls_of address entry_point actions ≡ [])
      ↔ All (λ b. ¬ IsCallOf address entry_point b) actions
calls_of-none address entry_point [] = (λ h. tt, λ h. refl)
calls_of-none address entry_point (a ∷ actions) =
    ground (arith, is_match_iff address entry_point a, calls_of-none address entry_point actions)

calls_of-one :
    (address entry_point : Bytes) (actions : List Action) (id : ℕ)
    → (calls_of address entry_point actions ≡ id ∷ []) ↔ IsOnlyCall address entry_point id actions
calls_of-one address entry_point [] id = (λ h. cc, λ h. absurd h)
calls_of-one address entry_point (a ∷ actions) id = ground (
  arith,
  is_match_iff address entry_point a,
  calls_of-none address entry_point actions,
  calls_of-one address entry_point actions id,
)

-- A contract event with an address and an entry point is attributed to an action exactly when
-- that action is the only call, among the transaction's actions, of the event's entry point at
-- the event's address: no match and several matches leave it unattributed.
pub correlate_iff_IsOnlyCall :
    (event : LedgerEvent) (actions : List Action) (id : ℕ) (address entry_point : Bytes)
    → event.contract_address ≡ some address
    → contract_entry_point event.attributes ≡ some entry_point
    → (correlate_contract_action_id event actions ≡ some id)
      ↔ IsOnlyCall address entry_point id actions
correlate_iff_IsOnlyCall event actions id address entry_point ha he =
    unfold correlate_contract_action_id in
    ground (
      arith,
      correlate_loop-none address entry_point actions id,
      calls_of-one address entry_point actions id,
    )
