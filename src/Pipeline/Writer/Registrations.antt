-- ===== src/Pipeline/Writer/Registrations.antt =====
-- `apply_registration_event` of crates/nightfrost-chain/src/pipeline.rs: the cNight registrations,
-- keyed by stake key and dust address. Each event reads the store as it was before the block.
use nightfrost.Prelude.{ℕ, true, false, none, some, Result, ok, ◌>>=◌}
use nightfrost.Bytes.{Bytes}
use nightfrost.Domain.{
  DustRegistrationEvent, registration, deregistration, mapping_added, mapping_removed,
}
use nightfrost.Store.Error.{Error}
use nightfrost.Store.Fjall.{Fjall, Batch, cnight_registrations}
use nightfrost.Store.Keys.{registration_key}
use nightfrost.Store.Reads.{decoded}
use nightfrost.Store.Records.{Postcard, CnightRegistrationRecord}
use nightfrost.Pipeline.Writer.Defs.{batch_insert}

unfoldable pub event_stake_key : DustRegistrationEvent → Bytes
event_stake_key (registration stake_key _) = stake_key
event_stake_key (deregistration stake_key _) = stake_key
event_stake_key (mapping_added stake_key _ _ _) = stake_key
event_stake_key (mapping_removed stake_key _ _ _) = stake_key

unfoldable pub event_dust_address : DustRegistrationEvent → Bytes
event_dust_address (registration _ dust_address) = dust_address
event_dust_address (deregistration _ dust_address) = dust_address
event_dust_address (mapping_added _ dust_address _ _) = dust_address
event_dust_address (mapping_removed _ dust_address _ _) = dust_address

unfoldable pub event_key : DustRegistrationEvent → Bytes
unfolding event_stake_key event_dust_address registration_key
event_key event = registration_key (event_stake_key event) (event_dust_address event)

-- What an event finds where no record is stored.
unfoldable pub fresh_registration : DustRegistrationEvent → ℕ → CnightRegistrationRecord
unfolding event_stake_key event_dust_address
fresh_registration event height = record {
  cardano_stake_key = event_stake_key event;
  dust_address = event_dust_address event;
  valid = false;
  registered_at_height = height;
  removed_at_height = none;
  utxo_id = none;
  utxo_index = none;
}

unfoldable pub update_registration :
    DustRegistrationEvent → ℕ → CnightRegistrationRecord → CnightRegistrationRecord
update_registration (registration _ _) height r = record r {
  valid = true;
  registered_at_height = height;
  removed_at_height = none;
}
update_registration (deregistration _ _) height r = record r {
  valid = false;
  removed_at_height = some height;
}
update_registration (mapping_added _ _ id index) height r = record r {
  valid = true;
  removed_at_height = none;
  utxo_id = some id;
  utxo_index = some index;
}
update_registration (mapping_removed _ _ _ _) height r = record r {
  utxo_id = none;
  utxo_index = none;
}

module _ (P : Postcard) (F : Fjall) (s : F.Keyspace) where
  -- The stored record, or a fresh one. The batch's own pending writes cannot be read.
  unfoldable pub find_registration :
      ℕ → DustRegistrationEvent → Result Error CnightRegistrationRecord
  unfolding event_key decoded fresh_registration
  find_registration height event = do
    stored ← decoded P.registration.decode (F.get s cnight_registrations (event_key event))
    elim stored [ none ↦ ok (fresh_registration event height) | some r ↦ ok r ]

  unfoldable pub apply_registration_event : ℕ → Batch → DustRegistrationEvent → Result Error Batch
  apply_registration_event height batch event = do
    found ← find_registration height event
    ok (
        batch_insert batch cnight_registrations (event_key event)
          (P.registration.encode (update_registration event height found)))
