-- ===== src/Pipeline/Chain.antt =====
-- crates/nightfrost-chain/src/domain.rs: a block as fetched from the node, with its transactions.
-- A zswap root is taken as its serialization.
use nightfrost.Prelude.{ℕ, Option, List}
use nightfrost.Bytes.{Bytes}
use nightfrost.Domain.{ContractAttributes, ContractBalance, DustRegistrationEvent}
use nightfrost.Domain.Version.{ProtocolVersion}

pub record ContractAction : Type 0 where
  pub address : Bytes
  pub state : Bytes
  pub zswap_state : Bytes
  pub extracted_balances : List ContractBalance
  pub attributes : ContractAttributes

pub record RegularTransaction : Type 0 where
  pub hash : Bytes
  pub protocol_version : ProtocolVersion
  pub raw : Bytes
  pub identifiers : List Bytes
  pub contract_actions : List ContractAction

pub record SystemTransaction : Type 0 where
  pub hash : Bytes
  pub protocol_version : ProtocolVersion
  pub raw : Bytes

pub data Transaction : Type 0 where
  regular : RegularTransaction → Transaction
  system : SystemTransaction → Transaction

-- The bridge events are carried along and read by nothing; they are left out.
pub record Block : Type 0 where
  pub hash : Bytes
  pub height : ℕ
  pub protocol_version : ProtocolVersion
  pub parent_hash : Bytes
  pub author : Option Bytes
  pub timestamp : ℕ
  pub zswap_merkle_tree_root : Bytes
  pub ledger_state_root : Option Bytes
  pub transactions : List Transaction
  pub dust_registration_events : List DustRegistrationEvent

pub record BlockRef : Type 0 where
  pub hash : Bytes
  pub height : ℕ

unfoldable pub block_ref : Block → BlockRef
block_ref block = record { hash = block.hash; height = block.height }
