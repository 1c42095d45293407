-- ===== src/Pipeline/Writer/Events.antt =====
-- The ledger events of one transaction: the loop of `write_block` over them, in
-- crates/nightfrost-chain/src/pipeline.rs.
use nightfrost.Prelude.{ℕ, Option, none, some, List, [], ◌∷◌}
use nightfrost.Bytes.{Bytes}
use nightfrost.Domain.{LedgerEvent, LedgerEventGrouping, LedgerEventAttributes, DustGenerationInfo}
use nightfrost.Domain.LedgerEventGrouping.{dust}
use nightfrost.Domain.LedgerEventAttributes.{dust_initial_utxo, dust_generation_dtime_update}
use nightfrost.Domain.Correlate.{Action, correlate_contract_action_id}
use nightfrost.Store.Fjall.{
  Batch, events_by_contract, ledger_events, wallet_dust_events, dust_generation, dust_gen_by_owner,
}
use nightfrost.Store.Keys.{u64_key, prefixed_u64_key, dust_gen_owner_key}
use nightfrost.Store.Records.{Postcard, EventRecord, DustGenerationRecord}
use nightfrost.Pipeline.Writer.Actions.{AppliedAction}
use nightfrost.Pipeline.Writer.Defs.{Writer, batch_insert, bump}

-- `contract_actions.iter().zip(&contract_action_ids)`
unfoldable pub actions_with_ids : List AppliedAction → List ℕ → List Action
actions_with_ids [] ids = []
actions_with_ids (a ∷ actions) [] = []
actions_with_ids ((address, action, blob) ∷ actions) (id ∷ ids) =
    (id, address, action.attributes) ∷ actions_with_ids actions ids

-- `a.or(b)`
abbrev pub or_else {ℓ} : {A : Type ℓ} → Option A → Option A → Option A
or_else (some a) b = some a
or_else none b = b

unfoldable pub attribute_event : List Action → LedgerEvent → LedgerEvent
attribute_event actions e = record e {
  contract_action_id = or_else (correlate_contract_action_id e actions) e.contract_action_id;
}

unfoldable pub index_by_contract : Batch → Option Bytes → ℕ → Batch
index_by_contract batch none event_id = batch
index_by_contract batch (some address) event_id =
    batch_insert batch events_by_contract (prefixed_u64_key address event_id) []

unfoldable pub index_dust : Batch → LedgerEventGrouping → ℕ → Batch
index_dust batch dust event_id = batch_insert batch wallet_dust_events (u64_key event_id) []
index_dust batch LedgerEventGrouping.zswap event_id = batch
index_dust batch LedgerEventGrouping.contract event_id = batch

-- The generation that an event creates or updates.
unfoldable pub generation_info : LedgerEventAttributes → Option DustGenerationInfo
generation_info (dust_initial_utxo _ info _) = some info
generation_info (dust_generation_dtime_update info _ _) = some info
generation_info _ = none

module _ (P : Postcard) where
  unfoldable pub index_generation : Batch → Option DustGenerationInfo → ℕ → Batch
  index_generation batch none tx_id = batch
  index_generation batch (some generation) tx_id =
      let stored : DustGenerationRecord = record { info = generation; tx_id = tx_id } in
      let hash = generation.night_utxo_hash in
      batch_insert (batch_insert batch dust_generation hash (P.dust_generation.encode stored))
        dust_gen_by_owner (dust_gen_owner_key generation.owner hash) []

  unfoldable pub write_event : ℕ → ℕ → List Action → Writer → LedgerEvent → Writer
  unfolding attribute_event index_by_contract index_dust index_generation
  write_event tx_id height actions w e =
      let event_id = w.ids.next_event_id in
      let e' = attribute_event actions e in
      let stored : EventRecord = record { event = e'; tx_id = tx_id; block_height = height } in
      let by_contract = index_by_contract w.batch e'.contract_address event_id in
      let recorded =
        batch_insert by_contract ledger_events (u64_key event_id) (P.event.encode stored) in
      let dusty = index_dust recorded e'.grouping event_id in
      record w {
        ids = record (w.ids) { next_event_id = bump event_id };
        batch = index_generation dusty (generation_info e'.attributes) tx_id;
      }
