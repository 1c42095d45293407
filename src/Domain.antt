-- ===== src/Domain.antt =====
-- crates/nightfrost-core/src/domain.rs and domain/dust.rs: the data that a block's replay yields.
-- A `ByteVec`, a `ByteArray<N>` and a Rust `String` (its UTF-8 bytes) are byte strings.
pub mod Version
pub mod Event
pub mod Correlate
use nightfrost.Prelude.{ℕ, Bool, Option, none, some, List, []}
use nightfrost.Bytes.{Bytes}

abbrev pub Text : Type 0
Text = Bytes

pub data TransactionResult : Type 0 where
  success : TransactionResult
  partial_success : List (ℕ × Bool) → TransactionResult
  failure : TransactionResult

pub data TransactionVariant : Type 0 where
  regular system : TransactionVariant

pub data ContractAttributes : Type 0 where
  deploy : ContractAttributes
  call : Text → ContractAttributes
  update : ContractAttributes

pub record ContractBalance : Type 0 where
  pub token_type : Bytes
  pub amount : ℕ

pub record UnshieldedUtxo : Type 0 where
  pub owner : Bytes
  pub token_type : Bytes
  pub value : ℕ
  pub intent_hash : Bytes
  pub output_index : ℕ
  pub ctime : Option ℕ
  pub initial_nonce : Bytes
  pub registered_for_dust_generation : Bool

pub record QualifiedDustOutput : Type 0 where
  pub initial_value : ℕ
  pub owner : Bytes
  pub nonce : Bytes
  pub seq : ℕ
  pub ctime : ℕ
  pub backing_night : Bytes
  pub mt_index : ℕ

pub record DustGenerationInfo : Type 0 where
  pub night_utxo_hash : Bytes
  pub value : ℕ
  pub owner : Bytes
  pub nonce : Bytes
  pub ctime : ℕ
  pub dtime : ℕ

-- The stake key and the dust address come first; a mapping adds its utxo's id and index.
pub data DustRegistrationEvent : Type 0 where
  registration : Bytes → Bytes → DustRegistrationEvent
  deregistration : Bytes → Bytes → DustRegistrationEvent
  mapping_added : Bytes → Bytes → Bytes → ℕ → DustRegistrationEvent
  mapping_removed : Bytes → Bytes → Bytes → ℕ → DustRegistrationEvent

pub data AddressOrContract : Type 0 where
  user : Bytes → AddressOrContract
  contract : Bytes → AddressOrContract

pub data LedgerEventGrouping : Type 0 where
  zswap dust contract : LedgerEventGrouping

-- Fields in the source's order: (version, entry_point, …) for the contract events.
pub data LedgerEventAttributes : Type 0 where
  zswap_input : Bytes → LedgerEventAttributes
  zswap_output : LedgerEventAttributes
  param_change : LedgerEventAttributes
  dust_initial_utxo : QualifiedDustOutput → DustGenerationInfo → ℕ → LedgerEventAttributes
  dust_generation_dtime_update : DustGenerationInfo → ℕ → Bytes → LedgerEventAttributes
  dust_spend_processed : Bytes → Bytes → LedgerEventAttributes
  contract_shielded_spend : ℕ → Bytes → Bytes → LedgerEventAttributes
  contract_shielded_receive :
      ℕ → Bytes → Bytes → Option Bytes → Option Bytes → LedgerEventAttributes
  contract_shielded_mint : ℕ → Bytes → Bytes → Bytes → Option Text → LedgerEventAttributes
  contract_shielded_burn : ℕ → Bytes → Bytes → Option Text → LedgerEventAttributes
  contract_unshielded_spend :
      ℕ → Bytes → AddressOrContract → Bytes → Bytes → Text → LedgerEventAttributes
  contract_unshielded_receive :
      ℕ → Bytes → AddressOrContract → Bytes → Bytes → Text → LedgerEventAttributes
  contract_unshielded_mint : ℕ → Bytes → Bytes → Bytes → Text → LedgerEventAttributes
  contract_unshielded_burn : ℕ → Bytes → AddressOrContract → Bytes → Text → LedgerEventAttributes
  contract_paused : ℕ → Bytes → LedgerEventAttributes
  contract_unpaused : ℕ → Bytes → LedgerEventAttributes
  contract_misc : ℕ → Bytes → Bytes → Bytes → LedgerEventAttributes

pub record LedgerEvent : Type 0 where
  pub grouping : LedgerEventGrouping
  pub raw : Bytes
  pub attributes : LedgerEventAttributes
  pub contract_action_id : Option ℕ
  pub contract_address : Option Bytes

-- The claim of a c2m bridge transfer is handed on by nobody here, and is left out.
pub record ApplyRegularTransactionOutcome : Type 0 where
  pub transaction_result : TransactionResult
  pub created_unshielded_utxos : List UnshieldedUtxo
  pub spent_unshielded_utxos : List UnshieldedUtxo
  pub ledger_events : List LedgerEvent
  pub fees : ℕ

pub record ApplySystemTransactionOutcome : Type 0 where
  pub created_unshielded_utxos : List UnshieldedUtxo
  pub ledger_events : List LedgerEvent
