-- ===== src/Domain/Event.antt =====
-- `LedgerEvent` and `LedgerEventAttributes` of crates/nightfrost-core/src/domain.rs: the events of
-- a replayed transaction, the entry point behind a contract event, and the fields by which a
-- contract event can be looked up.
use nightfrost.Prelude.{
  ℕ, ◌≡◌, Option, none, some, List, [], ◌∷◌, arith, All, Bool, true, false, refl, ◌||◌,
}
use nightfrost.Bytes.{Bytes, bytes_eq, codes}
use nightfrost.Domain.{
  LedgerEventAttributes, LedgerEvent, LedgerEventGrouping, AddressOrContract, QualifiedDustOutput,
  DustGenerationInfo,
}
use nightfrost.Domain.LedgerEventGrouping.{zswap, dust}
use nightfrost.Domain.LedgerEventAttributes.{
  zswap_input, zswap_output, param_change, dust_initial_utxo, dust_generation_dtime_update,
  dust_spend_processed, contract_shielded_spend, contract_shielded_receive, contract_shielded_mint,
  contract_shielded_burn, contract_unshielded_spend, contract_unshielded_receive,
  contract_unshielded_mint, contract_unshielded_burn, contract_paused, contract_unpaused,
  contract_misc,
}

-- An event that belongs to no contract.
abbrev plain_event : LedgerEventGrouping → Bytes → LedgerEventAttributes → LedgerEvent
plain_event g r a = record {
  grouping = g;
  raw = r;
  attributes = a;
  contract_action_id = none;
  contract_address = none;
}

unfoldable pub zswap_input_event : Bytes → Bytes → LedgerEvent
zswap_input_event raw nullifier = plain_event zswap raw (zswap_input nullifier)

unfoldable pub zswap_output_event : Bytes → LedgerEvent
zswap_output_event raw = plain_event zswap raw zswap_output

unfoldable pub param_change_event : Bytes → LedgerEvent
param_change_event raw = plain_event dust raw param_change

unfoldable pub dust_initial_utxo_event :
    Bytes → QualifiedDustOutput → DustGenerationInfo → ℕ → LedgerEvent
dust_initial_utxo_event raw output info index =
    plain_event dust raw (dust_initial_utxo output info index)

unfoldable pub dust_generation_dtime_update_event :
    Bytes → DustGenerationInfo → ℕ → Bytes → LedgerEvent
dust_generation_dtime_update_event raw info index path =
    plain_event dust raw (dust_generation_dtime_update info index path)

unfoldable pub dust_spend_processed_event : Bytes → Bytes → Bytes → LedgerEvent
dust_spend_processed_event raw nullifier commitment =
    plain_event dust raw (dust_spend_processed nullifier commitment)

-- The debug assertion on `attributes` is not compiled into a release build.
unfoldable pub contract_event : Bytes → Bytes → Option ℕ → LedgerEventAttributes → LedgerEvent
contract_event r address action_id a = record {
  grouping = LedgerEventGrouping.contract;
  raw = r;
  attributes = a;
  contract_action_id = action_id;
  contract_address = some address;
}

unfoldable pub contract_entry_point : LedgerEventAttributes → Option Bytes
contract_entry_point (contract_shielded_spend _ e _) = some e
contract_entry_point (contract_shielded_receive _ e _ _ _) = some e
contract_entry_point (contract_shielded_mint _ e _ _ _) = some e
contract_entry_point (contract_shielded_burn _ e _ _) = some e
contract_entry_point (contract_unshielded_spend _ e _ _ _ _) = some e
contract_entry_point (contract_unshielded_receive _ e _ _ _ _) = some e
contract_entry_point (contract_unshielded_mint _ e _ _ _) = some e
contract_entry_point (contract_unshielded_burn _ e _ _ _) = some e
contract_entry_point (contract_paused _ e) = some e
contract_entry_point (contract_unpaused _ e) = some e
contract_entry_point (contract_misc _ e _ _) = some e
contract_entry_point (zswap_input _) = none
contract_entry_point zswap_output = none
contract_entry_point param_change = none
contract_entry_point (dust_initial_utxo _ _ _) = none
contract_entry_point (dust_generation_dtime_update _ _ _) = none
contract_entry_point (dust_spend_processed _ _) = none

pub to_bytes : AddressOrContract → Bytes
to_bytes (AddressOrContract.user bytes) = bytes
to_bytes (AddressOrContract.contract bytes) = bytes

abbrev nullifier_name : Bytes
nullifier_name = codes "nullifier"

abbrev commitment_name : Bytes
commitment_name = codes "commitment"

abbrev ciphertext_name : Bytes
ciphertext_name = codes "ciphertext"

abbrev domain_sep_name : Bytes
domain_sep_name = codes "domainSep"

abbrev token_type_name : Bytes
token_type_name = codes "tokenType"

abbrev sender_name : Bytes
sender_name = codes "sender"

abbrev recipient_name : Bytes
recipient_name = codes "recipient"

attribute_fields : LedgerEventAttributes → List (Bytes × Bytes)
unfolding to_bytes
attribute_fields (contract_shielded_spend _ _ nullifier) = (nullifier_name, nullifier) ∷ []
attribute_fields (contract_shielded_receive _ _ commitment none _) =
    (commitment_name, commitment) ∷ []
attribute_fields (contract_shielded_receive _ _ commitment (some ciphertext) _) =
    (commitment_name, commitment) ∷ (ciphertext_name, ciphertext) ∷ []
attribute_fields (contract_shielded_mint _ _ commitment domain_sep _) =
    (commitment_name, commitment) ∷ (domain_sep_name, domain_sep) ∷ []
attribute_fields (contract_shielded_burn _ _ nullifier _) = (nullifier_name, nullifier) ∷ []
attribute_fields (contract_unshielded_spend _ _ sender domain_sep token_type _) =
    (sender_name, to_bytes sender)
    ∷ (domain_sep_name, domain_sep)
    ∷ (token_type_name, token_type)
    ∷ []
attribute_fields (contract_unshielded_receive _ _ recipient domain_sep token_type _) =
    (recipient_name, to_bytes recipient)
    ∷ (domain_sep_name, domain_sep)
    ∷ (token_type_name, token_type)
    ∷ []
attribute_fields (contract_unshielded_mint _ _ domain_sep token_type _) =
    (domain_sep_name, domain_sep) ∷ (token_type_name, token_type) ∷ []
attribute_fields (contract_unshielded_burn _ _ sender token_type _) =
    (sender_name, to_bytes sender) ∷ (token_type_name, token_type) ∷ []
attribute_fields (contract_paused _ _) = []
attribute_fields (contract_unpaused _ _) = []
attribute_fields (contract_misc _ _ _ _) = []
attribute_fields (zswap_input _) = []
attribute_fields zswap_output = []
attribute_fields param_change = []
attribute_fields (dust_initial_utxo _ _ _) = []
attribute_fields (dust_generation_dtime_update _ _ _) = []
attribute_fields (dust_spend_processed _ _) = []

pub indexable_contract_fields : LedgerEvent → List (Bytes × Bytes)
unfolding attribute_fields
indexable_contract_fields event = attribute_fields event.attributes

abbrev pub indexable_contract_field_names : List Bytes
indexable_contract_field_names =
    nullifier_name ∷ commitment_name ∷ ciphertext_name ∷ domain_sep_name ∷ token_type_name
    ∷ sender_name ∷ recipient_name ∷ []

abbrev pub contains : List Bytes → Bytes → Bool
contains [] b = false
contains (x ∷ xs) b = bytes_eq x b || contains xs b

attribute_fields_named :
    (a : LedgerEventAttributes)
    → All (λ f. contains indexable_contract_field_names f.0 ≡ true) (attribute_fields a)
unfolding attribute_fields bytes_eq
attribute_fields_named (contract_shielded_receive _ _ commitment none _) = (refl, tt)
attribute_fields_named (contract_shielded_receive _ _ commitment (some c) _) = (refl, (refl, tt))
attribute_fields_named (contract_shielded_spend _ _ _) = (refl, tt)
attribute_fields_named (contract_shielded_burn _ _ _ _) = (refl, tt)
attribute_fields_named _ = ground arith

-- No fields without an entry point.
abbrev pub IsBare : Option Bytes → List (Bytes × Bytes) → Type 0
IsBare none fields = fields ≡ []
IsBare (some entry_point) fields = Unit {0}

attribute_fields-IsBare :
    (a : LedgerEventAttributes) → IsBare (contract_entry_point a) (attribute_fields a)
unfolding attribute_fields contract_entry_point
attribute_fields-IsBare (zswap_input _) = refl
attribute_fields-IsBare _ = ground arith

-- Every field by which an event can be looked up has a name of the published list, and an event
-- that no contract's entry point emitted has no such field.
pub indexable_fields_named :
    (event : LedgerEvent)
    → All
        (λ f. contains indexable_contract_field_names f.0 ≡ true)
        (indexable_contract_fields event)
      × IsBare (contract_entry_point event.attributes) (indexable_contract_fields event)
unfolding indexable_contract_fields
indexable_fields_named event =
    (attribute_fields_named event.attributes, attribute_fields-IsBare event.attributes)
