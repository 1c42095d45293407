-- ===== src/Ledger/ContractLog/Attributes.antt =====
-- `make_contract_event_attributes` of crates/nightfrost-core/src/domain/ledger/ledger_state.rs.
use nightfrost.Prelude.{ℕ, ◌+◌, ◌-◌, ◌*◌, Option, []}
use nightfrost.Bytes.{Bytes, codes}
use nightfrost.Domain.{Text, AddressOrContract, LedgerEventAttributes}
use nightfrost.Domain.LedgerEventAttributes.{
  contract_shielded_spend, contract_shielded_receive, contract_shielded_mint,
  contract_shielded_burn, contract_unshielded_spend, contract_unshielded_receive,
  contract_unshielded_mint, contract_unshielded_burn, contract_paused, contract_unpaused,
  contract_misc,
}
use nightfrost.Ledger.ContractLog.Fields.{
  and_then, unwrap_or, take_bytes, take_uint_128_le, take_maybe_bytes, take_maybe_uint_128_le,
  take_either_address, StateValue, extract_flat_bytes,
}

pub data LogEventType : Type 0 where
  shielded_spend shielded_receive shielded_mint shielded_burn : LogEventType
  unshielded_spend unshielded_receive unshielded_mint unshielded_burn : LogEventType
  paused unpaused misc : LogEventType

-- `VersionedLogItem`
pub record LogItem : Type 0 where
  pub version : ℕ
  pub event_type : LogEventType
  pub data_value : StateValue

abbrev pub bytes_32_size : ℕ
bytes_32_size = 32

abbrev pub uint_128_size : ℕ
uint_128_size = 16

abbrev pub either_size : ℕ
either_size = 1 + 2 * bytes_32_size

abbrev pub maybe_512_size : ℕ
maybe_512_size = 1 + 512

abbrev pub shielded_spend_size : ℕ
shielded_spend_size = 32

abbrev pub shielded_receive_size : ℕ
shielded_receive_size = 578

abbrev pub shielded_mint_size : ℕ
shielded_mint_size = 81

abbrev pub shielded_burn_size : ℕ
shielded_burn_size = 49

abbrev pub unshielded_spend_size : ℕ
unshielded_spend_size = 145

abbrev pub unshielded_receive_size : ℕ
unshielded_receive_size = 145

abbrev pub unshielded_mint_size : ℕ
unshielded_mint_size = 80

abbrev pub unshielded_burn_size : ℕ
unshielded_burn_size = 113

abbrev pub misc_size : ℕ
misc_size = 288

-- The readers with the defaults of a field that is not there.
abbrev pub bytes_field : Option Bytes → ℕ → ℕ → Bytes
bytes_field bytes offset len = unwrap_or (and_then bytes λ b. take_bytes b offset len) []

abbrev pub amount_field : Option Bytes → ℕ → Text
amount_field bytes offset = unwrap_or (and_then bytes λ b. take_uint_128_le b offset) (codes "0")

abbrev pub address_field : Option Bytes → AddressOrContract
address_field bytes =
    unwrap_or (and_then bytes λ b. take_either_address b 0) (AddressOrContract.user [])

unfoldable pub make_contract_event_attributes : LogItem → Bytes → LedgerEventAttributes
make_contract_event_attributes item entry_point =
    let version = item.version in
    let extract = extract_flat_bytes item.data_value in
    elim item.event_type [
      | shielded_spend ↦
          let bytes = extract shielded_spend_size shielded_spend_size in
          contract_shielded_spend version entry_point (bytes_field bytes 0 bytes_32_size)
      | shielded_receive ↦
          let bytes = extract bytes_32_size shielded_receive_size in
          contract_shielded_receive version entry_point (bytes_field bytes 0 bytes_32_size)
            (and_then bytes λ b. take_maybe_bytes b bytes_32_size 512)
            (and_then bytes λ b. take_maybe_bytes b (bytes_32_size + maybe_512_size) bytes_32_size)
      | shielded_mint ↦
          let bytes = extract (2 * bytes_32_size) shielded_mint_size in
          contract_shielded_mint version entry_point (bytes_field bytes 0 bytes_32_size)
            (bytes_field bytes bytes_32_size bytes_32_size)
            (and_then bytes λ b. take_maybe_uint_128_le b (2 * bytes_32_size))
      | shielded_burn ↦
          let bytes = extract bytes_32_size shielded_burn_size in
          contract_shielded_burn version entry_point (bytes_field bytes 0 bytes_32_size)
            (and_then bytes λ b. take_maybe_uint_128_le b bytes_32_size)
      | unshielded_spend ↦
          let bytes = extract (unshielded_spend_size - uint_128_size) unshielded_spend_size in
          contract_unshielded_spend version entry_point (address_field bytes)
            (bytes_field bytes either_size bytes_32_size)
            (bytes_field bytes (either_size + bytes_32_size) bytes_32_size)
            (amount_field bytes (either_size + 2 * bytes_32_size))
      | unshielded_receive ↦
          let bytes = extract (unshielded_receive_size - uint_128_size) unshielded_receive_size in
          contract_unshielded_receive version entry_point (address_field bytes)
            (bytes_field bytes either_size bytes_32_size)
            (bytes_field bytes (either_size + bytes_32_size) bytes_32_size)
            (amount_field bytes (either_size + 2 * bytes_32_size))
      | unshielded_mint ↦
          let bytes = extract (unshielded_mint_size - uint_128_size) unshielded_mint_size in
          contract_unshielded_mint version entry_point (bytes_field bytes 0 bytes_32_size)
            (bytes_field bytes bytes_32_size bytes_32_size) (amount_field bytes (2 * bytes_32_size))
      | unshielded_burn ↦
          let bytes = extract (unshielded_burn_size - uint_128_size) unshielded_burn_size in
          contract_unshielded_burn version entry_point (address_field bytes)
            (bytes_field bytes either_size bytes_32_size)
            (amount_field bytes (either_size + bytes_32_size))
      | paused ↦ contract_paused version entry_point
      | unpaused ↦ contract_unpaused version entry_point
      | misc ↦
          let bytes = extract bytes_32_size misc_size in
          contract_misc version entry_point (bytes_field bytes 0 bytes_32_size)
            (bytes_field bytes bytes_32_size 256)
    ]
