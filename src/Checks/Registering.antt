-- ===== src/Checks/Registering.antt =====
-- A block that registers a key and takes its mapping back, over an empty store.
use nightfrost.Prelude.{[], ◌∷◌, Result, ok, err}
use nightfrost.Bytes.{Bytes, codes}
use nightfrost.Domain.{registration, mapping_removed, DustRegistrationEvent}
use nightfrost.Store.Error.{Error}
use nightfrost.Store.Fjall.{function_fjall}
use nightfrost.Pipeline.Chain.{Block}
use nightfrost.Pipeline.Writer.Defs.{Counters}
use nightfrost.Pipeline.Writer.Commit.{write_block}
use nightfrost.Checks.Postcards.{cells}
use nightfrost.Checks.Sample.{thirty_two, sample_block, empty_store, no_ids}

abbrev stake_key : Bytes
stake_key = codes "stake"

abbrev dust_address : Bytes
dust_address = codes "dust"

abbrev removal : DustRegistrationEvent
removal = mapping_removed stake_key dust_address (thirty_two 2) 0

abbrev registering_block : Block
registering_block = record sample_block {
  dust_registration_events = registration stake_key dust_address ∷ removal ∷ [];
}

abbrev registering_result : Result Error (function_fjall.Keyspace × Counters)
registering_result = write_block cells function_fjall empty_store registering_block [] [] [] no_ids

abbrev registering_after : function_fjall.Keyspace
registering_after = elim registering_result [ ok (s, _) ↦ s | err _ ↦ empty_store ]
