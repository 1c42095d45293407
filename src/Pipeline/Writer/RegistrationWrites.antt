-- ===== src/Pipeline/Writer/RegistrationWrites.antt =====
-- The cNight registrations after a block: what `apply_registration_event` of
-- crates/nightfrost-chain/src/pipeline.rs leaves in the store when a block is committed.
use nightfrost.Prelude.{◌≡◌, ℕ, Option, none, some, List, [], ◌∷◌, ok, if◌then◌else◌}
use nightfrost.Bytes.{Bytes, bytes_eq}
use nightfrost.Domain.{DustRegistrationEvent}
use nightfrost.Store.Fjall.{Fjall}
use nightfrost.Store.Records.{Postcard, CnightRegistrationRecord}
use nightfrost.Pipeline.Writer.Registrations.{event_key, update_registration, find_registration}

-- The last of some events that is about a key.
unfoldable pub last_event : Bytes → List DustRegistrationEvent → Option DustRegistrationEvent
last_event k [] = none
last_event k (e ∷ es) = elim (last_event k es) [
  | some later ↦ some later
  | none ↦ (if bytes_eq k (event_key e) then some e else none)
]

module _ (P : Postcard) (F : Fjall) (s : F.Keyspace) (height : ℕ) where
  -- A key's entry is the update of one event, on the record from before the block.
  abbrev pub IsUpdated : Option Bytes → DustRegistrationEvent → Type 0
  IsUpdated entry e =
      (found : CnightRegistrationRecord) × (find_registration P F s height e ≡ ok found)
      × (entry ≡ some (P.registration.encode (update_registration e height found)))
