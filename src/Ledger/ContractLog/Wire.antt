-- ===== src/Ledger/ContractLog/Wire.antt =====
-- The wire format of contract log items: what a contract emits, as an independent description for the
-- decoder. It is the format of the comments in
-- crates/nightfrost-core/src/domain/ledger/ledger_state.rs on `make_contract_event_attributes` and,
-- for an `Either` of a user and a contract, on `take_either_address`: a tag that is 1 for a user and
-- 0 for a contract, and a slot of 32 bytes for each of the two. The comment on
-- `make_contract_event_attributes` has the tags the other way round and one slot, which neither the
-- decoder nor its tests follow.
use nightfrost.Prelude.{
  ℕ, zero, suc, ◌/◌, ◌%◌, ◌^◌, ◌<◌, ◌≡◌, Option, none, some, List, [], ◌∷◌, ◌++◌, ◌==◌, length,
  if◌then◌else◌,
}
use nightfrost.Bytes.{Bytes}
use nightfrost.Domain.{Text, AddressOrContract, user, contract, LedgerEventAttributes}
use nightfrost.Domain.LedgerEventAttributes.{
  contract_shielded_spend, contract_shielded_receive, contract_shielded_mint,
  contract_shielded_burn, contract_unshielded_spend, contract_unshielded_receive,
  contract_unshielded_mint, contract_unshielded_burn, contract_paused, contract_unpaused,
  contract_misc,
}
use nightfrost.Ledger.ContractLog.Fields.{zeros, to_decimal, cell}
use nightfrost.Ledger.ContractLog.Attributes.{LogEventType, LogItem}

-- The fields of an event, in the order of the wire.
pub data Payload : Type 0 where
  spent : Bytes → Payload
  received : Bytes → Option Bytes → Option Bytes → Payload
  minted : Bytes → Bytes → Option ℕ → Payload
  burned : Bytes → Option ℕ → Payload
  unshielded_spent unshielded_received : AddressOrContract → Bytes → Bytes → ℕ → Payload
  unshielded_minted : Bytes → Bytes → ℕ → Payload
  unshielded_burned : AddressOrContract → Bytes → ℕ → Payload
  paused unpaused : Payload
  noted : Bytes → Bytes → Payload

abbrev pub kind : Payload → LogEventType
kind (spent _) = LogEventType.shielded_spend
kind (received _ _ _) = LogEventType.shielded_receive
kind (minted _ _ _) = LogEventType.shielded_mint
kind (burned _ _) = LogEventType.shielded_burn
kind (unshielded_spent _ _ _ _) = LogEventType.unshielded_spend
kind (unshielded_received _ _ _ _) = LogEventType.unshielded_receive
kind (unshielded_minted _ _ _) = LogEventType.unshielded_mint
kind (unshielded_burned _ _ _) = LogEventType.unshielded_burn
kind paused = LogEventType.paused
kind unpaused = LogEventType.unpaused
kind (noted _ _) = LogEventType.misc

-- `w` little-endian bytes.
unfoldable pub to_le : ℕ → ℕ → Bytes
to_le zero n = []
to_le (suc w) n = n % 256 ∷ to_le w (n / 256)

abbrev pub uint_128 : ℕ → Bytes
uint_128 n = to_le 16 n

-- A tag and the value, or zeros in its place.
abbrev pub maybe_bytes : ℕ → Option Bytes → Bytes
maybe_bytes n none = 0 ∷ zeros n
maybe_bytes n (some v) = 1 ∷ v

abbrev pub maybe_uint_128 : Option ℕ → Bytes
maybe_uint_128 none = 0 ∷ zeros 16
maybe_uint_128 (some n) = 1 ∷ uint_128 n

abbrev pub either_bytes : AddressOrContract → Bytes
either_bytes (user key) = 1 ∷ (key ++ zeros 32)
either_bytes (contract address) = 0 ∷ (zeros 32 ++ address)

abbrev pub joined : List Bytes → Bytes
joined [] = []
joined (field ∷ fields) = field ++ joined fields

abbrev pub wire : Payload → Bytes
wire (spent nullifier) = joined (nullifier ∷ [])
wire (received commitment ciphertext address) =
    joined (commitment ∷ maybe_bytes 512 ciphertext ∷ maybe_bytes 32 address ∷ [])
wire (minted commitment domain_sep amount) =
    joined (commitment ∷ domain_sep ∷ maybe_uint_128 amount ∷ [])
wire (burned nullifier amount) = joined (nullifier ∷ maybe_uint_128 amount ∷ [])
wire (unshielded_spent sender domain_sep token_type amount) =
    joined (either_bytes sender ∷ domain_sep ∷ token_type ∷ uint_128 amount ∷ [])
wire (unshielded_received recipient domain_sep token_type amount) =
    joined (either_bytes recipient ∷ domain_sep ∷ token_type ∷ uint_128 amount ∷ [])
wire (unshielded_minted domain_sep token_type amount) =
    joined (domain_sep ∷ token_type ∷ uint_128 amount ∷ [])
wire (unshielded_burned sender token_type amount) =
    joined (either_bytes sender ∷ token_type ∷ uint_128 amount ∷ [])
wire paused = joined []
wire unpaused = joined []
wire (noted name payload) = joined (name ∷ payload ∷ [])

-- The trailing zeros of an atom are not sent.
abbrev pub cons_stripped : ℕ → Bytes → Bytes
cons_stripped b [] = if b == 0 then [] else b ∷ []
cons_stripped b (c ∷ cs) = b ∷ c ∷ cs

unfoldable pub strip_zeros : Bytes → Bytes
strip_zeros [] = []
strip_zeros (b ∷ bs) = cons_stripped b (strip_zeros bs)

abbrev pub emitted : ℕ → Payload → LogItem
emitted version p = record {
  version = version;
  event_type = kind p;
  data_value = cell (strip_zeros (wire p) ∷ []);
}

-- Fields of the sizes that the format gives them.
abbrev pub IsSized : ℕ → Option Bytes → Type 0
IsSized n none = Unit {0}
IsSized n (some v) = length v ≡ n

abbrev pub IsU128 : ℕ → Type 0
IsU128 n = n < 2 ^ 128

abbrev pub IsMaybeU128 : Option ℕ → Type 0
IsMaybeU128 none = Unit {0}
IsMaybeU128 (some n) = IsU128 n

abbrev pub IsAddress : AddressOrContract → Type 0
IsAddress (user key) = length key ≡ 32
IsAddress (contract address) = length address ≡ 32

abbrev pub IsPayload : Payload → Type 0
IsPayload (spent nullifier) = length nullifier ≡ 32
IsPayload (received commitment ciphertext address) =
    (length commitment ≡ 32) × IsSized 512 ciphertext × IsSized 32 address
IsPayload (minted commitment domain_sep amount) =
    (length commitment ≡ 32) × (length domain_sep ≡ 32) × IsMaybeU128 amount
IsPayload (burned nullifier amount) = (length nullifier ≡ 32) × IsMaybeU128 amount
IsPayload (unshielded_spent sender domain_sep token_type amount) =
    IsAddress sender × (length domain_sep ≡ 32) × (length token_type ≡ 32) × IsU128 amount
IsPayload (unshielded_received recipient domain_sep token_type amount) =
    IsAddress recipient × (length domain_sep ≡ 32) × (length token_type ≡ 32) × IsU128 amount
IsPayload (unshielded_minted domain_sep token_type amount) =
    (length domain_sep ≡ 32) × (length token_type ≡ 32) × IsU128 amount
IsPayload (unshielded_burned sender token_type amount) =
    IsAddress sender × (length token_type ≡ 32) × IsU128 amount
IsPayload paused = Unit {0}
IsPayload unpaused = Unit {0}
IsPayload (noted name payload) = (length name ≡ 32) × (length payload ≡ 256)

-- The bytes that must arrive: all fields but the last one that may be all zeros.
abbrev pub required : Payload → ℕ
required (spent _) = 32
required (received _ _ _) = 32
required (minted _ _ _) = 64
required (burned _ _) = 32
required (unshielded_spent _ _ _ _) = 129
required (unshielded_received _ _ _ _) = 129
required (unshielded_minted _ _ _) = 64
required (unshielded_burned _ _ _) = 97
required paused = 0
required unpaused = 0
required (noted _ _) = 32

-- The event that a payload is.
abbrev pub option_decimal : Option ℕ → Option Text
option_decimal none = none
option_decimal (some n) = some (to_decimal n)

abbrev pub described : ℕ → Bytes → Payload → LedgerEventAttributes
described v e (spent nullifier) = contract_shielded_spend v e nullifier
described v e (received commitment ciphertext address) =
    contract_shielded_receive v e commitment ciphertext address
described v e (minted commitment domain_sep amount) =
    contract_shielded_mint v e commitment domain_sep (option_decimal amount)
described v e (burned nullifier amount) =
    contract_shielded_burn v e nullifier (option_decimal amount)
described v e (unshielded_spent sender domain_sep token_type amount) =
    contract_unshielded_spend v e sender domain_sep token_type (to_decimal amount)
described v e (unshielded_received recipient domain_sep token_type amount) =
    contract_unshielded_receive v e recipient domain_sep token_type (to_decimal amount)
described v e (unshielded_minted domain_sep token_type amount) =
    contract_unshielded_mint v e domain_sep token_type (to_decimal amount)
described v e (unshielded_burned sender token_type amount) =
    contract_unshielded_burn v e sender token_type (to_decimal amount)
described v e paused = contract_paused v e
described v e unpaused = contract_unpaused v e
described v e (noted name payload) = contract_misc v e name payload
