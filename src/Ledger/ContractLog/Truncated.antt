-- ===== src/Ledger/ContractLog/Truncated.antt =====
-- What `make_contract_event_attributes` of
-- crates/nightfrost-core/src/domain/ledger/ledger_state.rs makes of a log item that is too short.
use nightfrost.Prelude.{ℕ, ◌<◌, ◌≡◌, refl, none, [], ◌∷◌, length, arith}
use nightfrost.Bytes.{Bytes, codes}
use nightfrost.Domain.{AddressOrContract, LedgerEventAttributes}
use nightfrost.Domain.LedgerEventAttributes.{
  contract_shielded_spend, contract_shielded_receive, contract_shielded_mint,
  contract_shielded_burn, contract_unshielded_spend, contract_unshielded_receive,
  contract_unshielded_mint, contract_unshielded_burn, contract_paused, contract_unpaused,
  contract_misc,
}
use nightfrost.Ledger.ContractLog.Fields.{cell, extract_flat_bytes}
use nightfrost.Ledger.ContractLog.Attributes.{
  LogEventType, shielded_spend, shielded_receive, shielded_mint, shielded_burn, unshielded_spend,
  unshielded_receive, unshielded_mint, unshielded_burn, paused, unpaused, misc,
  make_contract_event_attributes,
}

-- The bytes that an event of this type must bring.
abbrev pub minimum : LogEventType → ℕ
minimum shielded_spend = 32
minimum shielded_receive = 32
minimum shielded_mint = 64
minimum shielded_burn = 32
minimum unshielded_spend = 129
minimum unshielded_receive = 129
minimum unshielded_mint = 64
minimum unshielded_burn = 97
minimum paused = 0
minimum unpaused = 0
minimum misc = 32

-- An event of this type without any of its fields.
abbrev pub blank : ℕ → Bytes → LogEventType → LedgerEventAttributes
blank v e shielded_spend = contract_shielded_spend v e []
blank v e shielded_receive = contract_shielded_receive v e [] none none
blank v e shielded_mint = contract_shielded_mint v e [] [] none
blank v e shielded_burn = contract_shielded_burn v e [] none
blank v e unshielded_spend =
    contract_unshielded_spend v e (AddressOrContract.user []) [] [] (codes "0")
blank v e unshielded_receive =
    contract_unshielded_receive v e (AddressOrContract.user []) [] [] (codes "0")
blank v e unshielded_mint = contract_unshielded_mint v e [] [] (codes "0")
blank v e unshielded_burn = contract_unshielded_burn v e (AddressOrContract.user []) [] (codes "0")
blank v e paused = contract_paused v e
blank v e unpaused = contract_unpaused v e
blank v e misc = contract_misc v e [] []

extract_flat_bytes-short :
    (atom : Bytes) (min max : ℕ)
    → length atom < min
    → extract_flat_bytes (cell (atom ∷ [])) min max ≡ none
unfolding extract_flat_bytes
extract_flat_bytes-short atom min max short = ground (arith, short)

-- An event whose bytes are fewer than the minimum of its type keeps its version and its entry
-- point, and none of its fields: one that ends in too many zero bytes reads as blank.
pub make_contract_event_attributes-short :
    (v : ℕ) (entry_point : Bytes) (type : LogEventType) (atom : Bytes)
    → length atom < minimum type
    → make_contract_event_attributes
        (record { version = v; event_type = type; data_value = cell (atom ∷ []) })
        entry_point
      ≡ blank v entry_point type
unfolding make_contract_event_attributes
make_contract_event_attributes-short v e shielded_spend atom short =
    rw (extract_flat_bytes-short atom 32 32 short)
make_contract_event_attributes-short v e shielded_receive atom short =
    rw (extract_flat_bytes-short atom 32 578 short)
make_contract_event_attributes-short v e shielded_mint atom short =
    rw (extract_flat_bytes-short atom 64 81 short)
make_contract_event_attributes-short v e shielded_burn atom short =
    rw (extract_flat_bytes-short atom 32 49 short)
make_contract_event_attributes-short v e unshielded_spend atom short =
    rw (extract_flat_bytes-short atom 129 145 short)
make_contract_event_attributes-short v e unshielded_receive atom short =
    rw (extract_flat_bytes-short atom 129 145 short)
make_contract_event_attributes-short v e unshielded_mint atom short =
    rw (extract_flat_bytes-short atom 64 80 short)
make_contract_event_attributes-short v e unshielded_burn atom short =
    rw (extract_flat_bytes-short atom 97 113 short)
make_contract_event_attributes-short v e paused atom short = refl
make_contract_event_attributes-short v e unpaused atom short = refl
make_contract_event_attributes-short v e misc atom short =
    rw (extract_flat_bytes-short atom 32 288 short)
