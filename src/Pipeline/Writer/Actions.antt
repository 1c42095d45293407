-- ===== src/Pipeline/Writer/Actions.antt =====
-- The contract actions of one transaction: the loop of `write_block` over them, in
-- crates/nightfrost-chain/src/pipeline.rs.
use nightfrost.Prelude.{ℕ, Option, none, some, [], ◌∷◌, if◌then◌else◌, Result, ok, ◌>>=◌}
use nightfrost.Prelude.Keyed
use nightfrost.Bytes.{Bytes}
use nightfrost.Store.Error.{Error}
use nightfrost.Store.Fjall.{
  Fjall, contract_actions, contract_actions_by_addr, contract_states, contracts,
}
use nightfrost.Store.Keys.{u64_key, prefixed_u64_key}
use nightfrost.Store.Reads.{decoded}
use nightfrost.Store.Records.{Postcard, ContractActionRecord, ContractRecord}
use nightfrost.Pipeline.Writer.Defs.{Writer, bytes_key, batch_insert, bump}

abbrev pub AppliedAction : Type 0
AppliedAction = Bytes × ContractActionRecord × Bytes

-- The state blob, if its content is new to the store and to this block.
module _ (F : Fjall) (s : F.Keyspace) where
  unfoldable pub insert_state : Writer → Option Bytes → Bytes → Writer
  insert_state w none blob = w
  insert_state w (some hash) blob =
      if Keyed.member hash w.states_this_block then w else elim (F.get s contract_states hash) [
        | some _ ↦ w
        | none ↦ record w {
          batch = batch_insert w.batch contract_states hash blob;
          states_this_block = hash ∷ w.states_this_block;
        }
      ]

-- The pointers of a contract after one more action with a state.
unfoldable pub next_contract : Option ContractRecord → ℕ → ContractRecord
next_contract none action_id = record { deploy_action_id = action_id; latest_action_id = action_id }
next_contract (some found) action_id = record found { latest_action_id = action_id }

module _ (P : Postcard) (F : Fjall) (s : F.Keyspace) where
  unfoldable pub find_contract : Writer → Bytes → Result Error (Option ContractRecord)
  unfolding decoded
  find_contract w address = elim (Keyed.lookup address w.contracts_this_block) [
    | some found ↦ ok (some found)
    | none ↦ decoded P.contract.decode (F.get s contracts address)
  ]

  unfoldable pub point_contract : Writer → Bytes → ℕ → Result Error Writer
  point_contract w address action_id = do
    found ← find_contract w address
    let next = next_contract found action_id
    ok (record w {
      batch = batch_insert w.batch contracts address (P.contract.encode next);
      contracts_this_block = Keyed.insert address next w.contracts_this_block;
    })

  -- A failed action (no state) never becomes a contract's pointer.
  unfoldable pub point_unless_failed : Option Bytes → Writer → Bytes → ℕ → Result Error Writer
  point_unless_failed none w address action_id = ok w
  point_unless_failed (some _) w address action_id = point_contract w address action_id

  -- The action's record and its index entry, under a fresh id.
  unfoldable pub insert_action : ℕ → Writer → AppliedAction → Writer
  insert_action tx_id w (address, action, blob) =
      let action_id = w.ids.next_action_id in
      let stored : ContractActionRecord = record action { tx_id = tx_id } in
      let ids = record (w.ids) { next_action_id = bump action_id } in
      record w {
        ids = ids;
        batch =
            batch_insert
              (batch_insert w.batch contract_actions (u64_key action_id)
                (P.contract_action.encode stored))
              contract_actions_by_addr (prefixed_u64_key address action_id) [];
      }

  unfoldable pub write_action : ℕ → Writer → AppliedAction → Result Error Writer
  unfolding insert_action insert_state
  write_action tx_id w (address, action, blob) =
      let action_id = w.ids.next_action_id in
      let told =
        insert_state F s (insert_action tx_id w (address, action, blob)) action.state_hash blob in
      point_unless_failed action.state_hash told address action_id
