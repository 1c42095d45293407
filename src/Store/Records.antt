-- ===== src/Store/Records.antt =====
-- The stored records of crates/nightfrost-core/src/store.rs, and postcard, which encodes them.
use nightfrost.Prelude.{ℕ, ◌≡◌, Bool, Option, some, List}
use nightfrost.Bytes.{Bytes, codes}
use nightfrost.Domain.{
  TransactionVariant, TransactionResult, UnshieldedUtxo, ContractAttributes, ContractBalance,
  LedgerEvent, DustGenerationInfo,
}
use nightfrost.Domain.Version.{LedgerVersion}

pub data StoredLedgerVersion : Type 0 where
  v8 v9 : StoredLedgerVersion

-- `StoredLedgerVersion::from(LedgerVersion)` and back.
unfoldable pub to_stored : LedgerVersion → StoredLedgerVersion
to_stored LedgerVersion.v8 = StoredLedgerVersion.v8
to_stored LedgerVersion.v9 = StoredLedgerVersion.v9

unfoldable pub from_stored : StoredLedgerVersion → LedgerVersion
from_stored StoredLedgerVersion.v8 = LedgerVersion.v8
from_stored StoredLedgerVersion.v9 = LedgerVersion.v9

-- Oldest first.
abbrev pub LedgerStateWindow : Type 0
LedgerStateWindow = List (Bytes × StoredLedgerVersion)

pub record BlockRecord : Type 0 where
  pub hash : Bytes
  pub parent_hash : Bytes
  pub timestamp : ℕ
  pub protocol_version : ℕ
  pub author : Option Bytes
  pub first_tx_id : ℕ
  pub tx_count : ℕ
  pub zswap_merkle_tree_root : Bytes
  pub ledger_state_root : Option Bytes

pub record TxRecord : Type 0 where
  pub hash : Bytes
  pub block_height : ℕ
  pub index_in_block : ℕ
  pub variant : TransactionVariant
  pub result : TransactionResult
  pub paid_fees : ℕ
  pub estimated_fees : ℕ
  pub identifiers : List Bytes
  pub contract_action_ids : List ℕ
  pub first_event_id : ℕ
  pub event_count : ℕ
  pub created_utxos : List UnshieldedUtxo
  pub spent_utxos : List UnshieldedUtxo
  pub raw : Bytes

pub record UtxoRecord : Type 0 where
  pub utxo : UnshieldedUtxo
  pub creating_tx_id : ℕ
  pub spending_tx_id : Option ℕ

pub record ContractActionRecord : Type 0 where
  pub address : Bytes
  pub attributes : ContractAttributes
  pub state_hash : Option Bytes
  pub balances : List ContractBalance
  pub tx_id : ℕ
  pub block_height : ℕ

pub record LegacyContractActionRecord : Type 0 where
  pub address : Bytes
  pub attributes : ContractAttributes
  pub state : Bytes
  pub balances : List ContractBalance
  pub tx_id : ℕ
  pub block_height : ℕ

pub record ContractRecord : Type 0 where
  pub deploy_action_id : ℕ
  pub latest_action_id : ℕ

pub record EventRecord : Type 0 where
  pub event : LedgerEvent
  pub tx_id : ℕ
  pub block_height : ℕ

pub record WalletTxIndexRecord : Type 0 where
  pub zswap_start_index : ℕ
  pub zswap_end_index : ℕ
  pub protocol_version : ℕ

pub record DustGenerationRecord : Type 0 where
  pub info : DustGenerationInfo
  pub tx_id : ℕ

pub record CnightRegistrationRecord : Type 0 where
  pub cardano_stake_key : Bytes
  pub dust_address : Bytes
  pub valid : Bool
  pub registered_at_height : ℕ
  pub removed_at_height : Option ℕ
  pub utxo_id : Option Bytes
  pub utxo_index : Option ℕ

-- postcard at one type. Decoding panics on `none`; what was encoded decodes to itself.
pub record Codec (A : Type 0) : Type 0 where
  pub encode : A → Bytes
  pub decode : Bytes → Option A
  pub decode-encode : (a : A) → decode (encode a) ≡ some a

-- postcard at the types that the store holds.
pub record Postcard : Type 0 where
  pub block : Codec BlockRecord
  pub tx : Codec TxRecord
  pub utxo : Codec UtxoRecord
  pub contract_action : Codec ContractActionRecord
  pub legacy_contract_action : Codec LegacyContractActionRecord
  pub contract : Codec ContractRecord
  pub event : Codec EventRecord
  pub wallet_tx_index : Codec WalletTxIndexRecord
  pub dust_generation : Codec DustGenerationRecord
  pub registration : Codec CnightRegistrationRecord
  pub window : Codec LedgerStateWindow

-- The keys of the `meta` partition.
abbrev pub last_height_key : Bytes
last_height_key = codes "last_indexed_height"

abbrev pub schema_version_key : Bytes
schema_version_key = codes "schema_version"

abbrev pub contract_states_backfill_cursor_key : Bytes
contract_states_backfill_cursor_key = codes "contract_states_backfill_cursor"

abbrev pub tip_timestamp_key : Bytes
tip_timestamp_key = codes "tip_timestamp"

abbrev pub genesis_hash_key : Bytes
genesis_hash_key = codes "genesis_hash"

abbrev pub next_tx_id_key : Bytes
next_tx_id_key = codes "next_tx_id"

abbrev pub next_action_id_key : Bytes
next_action_id_key = codes "next_action_id"

abbrev pub next_event_id_key : Bytes
next_event_id_key = codes "next_event_id"

abbrev pub ledger_state_window_key : Bytes
ledger_state_window_key = codes "ledger_state_window"

abbrev pub wallet_tx_indexed_through_key : Bytes
wallet_tx_indexed_through_key = codes "wallet_tx_indexed_through"

abbrev pub wallet_dust_indexed_through_key : Bytes
wallet_dust_indexed_through_key = codes "wallet_dust_indexed_through"
