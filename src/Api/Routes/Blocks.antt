-- ===== src/Api/Routes/Blocks.antt =====
-- The routes on single blocks and on the indexer's status, in crates/nightfrost-api/src/routes.rs.
use nightfrost.Prelude.{
  ℕ, ◌-◌, Bool, false, Option, none, some, ◌==◌, leb, length, Result, ok, err, ◌>>=◌, if◌then◌else◌,
}
use nightfrost.Bytes.{Bytes}
use nightfrost.Store.Fjall.{Fjall, contracts}
use nightfrost.Store.Ordered.{Ordered}
use nightfrost.Store.Records.{
  Postcard, BlockRecord, next_tx_id_key, next_action_id_key, next_event_id_key,
}
use nightfrost.Store.Reads.{last_indexed_height, block, block_height_by_hash, next_id}
use nightfrost.Api.Pagination.Cursor.{TipAnchor, Crypto}
use nightfrost.Api.Routes.Context.{
  ApiError, internal, no_block_indexed, block_not_found, invalid_block_id, map_err, current_tip,
}

-- `str::parse::<u64>` and the crate const_hex.
pub record Formats : Type 0 where
  pub parse_u64 : Bytes → Option ℕ
  pub hex_encode : Bytes → Bytes
  pub hex_decode : Bytes → Option Bytes

pub record PointResponse (T : Type 0) : Type 0 where
  pub results : T
  pub tip : Option TipAnchor

pub record BlockResponse : Type 0 where
  pub hash : Bytes
  pub height : ℕ
  pub parent_hash : Bytes
  pub timestamp : ℕ
  pub protocol_version : ℕ
  pub author : Option Bytes
  pub tx_count : ℕ
  pub zswap_merkle_tree_root : Bytes
  pub ledger_state_root : Option Bytes

pub record StatsResponse : Type 0 where
  pub total_transactions : ℕ
  pub total_contract_actions : ℕ
  pub total_ledger_events : ℕ
  pub total_contracts : ℕ

-- `option.map(f)`
abbrev pub map_option {ℓ κ} : {A : Type ℓ} {B : Type κ} → (A → B) → Option A → Option B
map_option f none = none
map_option f (some a) = some (f a)

-- `sync_status`: at most 10 blocks behind the node.
unfoldable pub caught_up : Option ℕ → Option ℕ → Bool
caught_up (some indexed) (some node) = leb (node - indexed) 10
caught_up _ _ = false

module _ (X : Formats) where
  unfoldable pub block_response : ℕ → BlockRecord → BlockResponse
  block_response height r = record {
    hash = X.hex_encode r.hash;
    height = height;
    parent_hash = X.hex_encode r.parent_hash;
    timestamp = r.timestamp;
    protocol_version = r.protocol_version;
    author = map_option X.hex_encode r.author;
    tx_count = r.tx_count;
    zswap_merkle_tree_root = X.hex_encode r.zswap_merkle_tree_root;
    ledger_state_root = map_option X.hex_encode r.ledger_state_root;
  }

  module _ (F : Fjall) (P : Postcard) (C : Crypto) (key : Bytes) (s : F.Keyspace) where
    unfoldable pub response : {T : Type 0} → T → Result ApiError (PointResponse T)
    response results = do tip ← current_tip F P C key s; ok record { results = results; tip = tip }

    unfoldable pub block_latest : Result ApiError (PointResponse BlockResponse)
    block_latest = do
      indexed ← map_err internal (last_indexed_height F P s)
      elim indexed [
        | none ↦ err no_block_indexed
        | some height ↦ do
          found ← map_err internal (block F P s height)
          elim found [ none ↦ err block_not_found | some r ↦ response (block_response height r) ]
      ]

    unfoldable pub height_of_hash : Bytes → Result ApiError ℕ
    height_of_hash hash = do
      found ← map_err internal (block_height_by_hash F P s hash)
      elim found [ none ↦ err block_not_found | some height ↦ ok height ]

    -- A decimal height, or a hash in hexadecimal digits.
    unfoldable pub resolve_height : Bytes → Result ApiError ℕ
    resolve_height id = elim (X.parse_u64 id) [
      | some height ↦ ok height
      | none ↦ elim (X.hex_decode id) [
        | none ↦ err invalid_block_id
        | some hash ↦ if length hash == 32 then height_of_hash hash else err invalid_block_id
      ]
    ]

    unfoldable pub resolve_block : Bytes → Result ApiError (ℕ × BlockRecord)
    resolve_block id = do
      height ← resolve_height id
      found ← map_err internal (block F P s height)
      elim found [ none ↦ err block_not_found | some r ↦ ok (height, r) ]

    unfoldable pub block_by_id : Bytes → Result ApiError (PointResponse BlockResponse)
    block_by_id id = do (height, r) ← resolve_block id; response (block_response height r)

    unfoldable pub stats : Ordered F → Result ApiError (PointResponse StatsResponse)
    stats O = do
      transactions ← map_err internal (next_id F P s next_tx_id_key)
      actions ← map_err internal (next_id F P s next_action_id_key)
      events ← map_err internal (next_id F P s next_event_id_key)
      response record {
        total_transactions = transactions;
        total_contract_actions = actions;
        total_ledger_events = events;
        total_contracts = length (O.entries s contracts);
      }
