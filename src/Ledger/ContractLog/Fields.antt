-- ===== src/Ledger/ContractLog/Fields.antt =====
-- The readers of single fields out of a log item's flat bytes, in
-- crates/nightfrost-core/src/domain/ledger/ledger_state.rs.
use nightfrost.Prelude.{
  ℕ, zero, suc, ◌+◌, ◌*◌, ◌/◌, ◌%◌, ◌-◌, Option, none, some, List, [], ◌∷◌, ◌++◌, ◌==◌, leb, ltb,
  length, take, drop, if◌then◌else◌,
}
use nightfrost.Bytes.{Bytes}
use nightfrost.Domain.{Text, AddressOrContract}

-- `option.and_then(f)`, `option.unwrap_or(a)`
abbrev pub and_then {ℓ κ} : {A : Type ℓ} {B : Type κ} → Option A → (A → Option B) → Option B
and_then none f = none
and_then (some a) f = f a

abbrev pub unwrap_or {ℓ} : {A : Type ℓ} → Option A → A → A
unwrap_or none a = a
unwrap_or (some b) a = b

-- `bytes.get(i)`
abbrev pub byte_at : Bytes → ℕ → Option ℕ
byte_at [] i = none
byte_at (b ∷ bs) zero = some b
byte_at (b ∷ bs) (suc i) = byte_at bs i

-- `u128::from_le_bytes`
unfoldable pub from_le : Bytes → ℕ
from_le [] = 0
from_le (b ∷ bs) = b + 256 * from_le bs

-- `u128::to_string`: the last digits go in front first. 39 digits are enough for a u128.
unfoldable pub decimal_digits : ℕ → ℕ → Text → Text
decimal_digits zero n digits = digits
decimal_digits (suc fuel) n digits =
    let longer = decimal_digits fuel (n / 10) ((48 + n % 10) ∷ digits) in
    if ltb n 10 then (48 + n) ∷ digits else longer

abbrev pub max_digits : ℕ
max_digits = 39

unfoldable pub to_decimal : ℕ → Text
to_decimal n = decimal_digits max_digits n []

-- `bytes.get(offset..offset + len)`
unfoldable pub take_bytes : Bytes → ℕ → ℕ → Option Bytes
take_bytes bytes offset len =
    if leb (offset + len) (length bytes) then some (take len (drop offset bytes)) else none

unfoldable pub take_uint_128_le : Bytes → ℕ → Option Text
take_uint_128_le bytes offset =
    and_then (take_bytes bytes offset 16) λ slice. some (to_decimal (from_le slice))

unfoldable pub take_maybe_bytes : Bytes → ℕ → ℕ → Option Bytes
take_maybe_bytes bytes offset value_len =
    and_then (byte_at bytes offset)
      λ tag. if tag == 0 then none else take_bytes bytes (offset + 1) value_len

unfoldable pub take_maybe_uint_128_le : Bytes → ℕ → Option Text
take_maybe_uint_128_le bytes offset =
    and_then (byte_at bytes offset)
      λ tag. if tag == 0 then none else take_uint_128_le bytes (offset + 1)

-- A tag byte, the user's 32 bytes and the contract's 32 bytes.
unfoldable pub take_either_address : Bytes → ℕ → Option AddressOrContract
take_either_address bytes offset = and_then (byte_at bytes offset) λ is_left.
    if is_left == 0
    then and_then (take_bytes bytes (offset + 33) 32)
        (λ value. some (AddressOrContract.contract value))
    else and_then (take_bytes bytes (offset + 1) 32) (λ value. some (AddressOrContract.user value))

-- `StateValue` of the onchain runtime: a cell with its value's atoms, or another shape.
pub data StateValue : Type 0 where
  cell : List Bytes → StateValue
  other_value : StateValue

-- `vec![0u8; n]`
unfoldable pub zeros : ℕ → Bytes
zeros zero = []
zeros (suc n) = 0 ∷ zeros n

-- The one atom of a cell, padded with the zeros that the wire strips.
unfoldable pub extract_flat_bytes : StateValue → ℕ → ℕ → Option Bytes
extract_flat_bytes (cell (atom ∷ [])) min max =
    if ltb max (length atom)
    then none
    else if ltb (length atom) min
    then none
    else some (atom ++ zeros (max - length atom))
extract_flat_bytes _ min max = none
