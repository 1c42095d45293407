-- ===== src/Store/Reads.antt =====
-- The lookups of `Store` in crates/nightfrost-core/src/store.rs.
use nightfrost.Prelude.{◌≡◌, ℕ, Option, none, some, [], ◌==◌, if◌then◌else◌, Result, ok, err, ◌>>=◌}
use nightfrost.Bytes.{Bytes, read_be}
use nightfrost.Store.Error.{Error, panicked, not_current_schema}
use nightfrost.Store.Fjall.{Fjall, meta, blocks, blocks_by_hash, txs}
use nightfrost.Store.Keys.{u64_key}
use nightfrost.Store.Records.{
  Postcard, BlockRecord, TxRecord, LedgerStateWindow, last_height_key, tip_timestamp_key,
  ledger_state_window_key,
}

-- `get(…)?.map(|v| decode(&v))`: a value that does not decode panics.
unfoldable pub decoded : {A : Type 0} → (Bytes → Option A) → Option Bytes → Result Error (Option A)
decoded decode none = ok none
decoded decode (some v) = elim (decode v) [ none ↦ err panicked | some a ↦ ok (some a) ]

abbrev pub schema_current : ℕ
schema_current = 2

module _ (F : Fjall) (P : Postcard) (s : F.Keyspace) where
  open F use {get}

  unfoldable pub meta_u64 : Bytes → Result Error (Option ℕ)
  unfolding decoded
  meta_u64 key = decoded (read_be 8) (get s meta key)

  unfoldable pub last_indexed_height : Result Error (Option ℕ)
  unfolding meta_u64
  last_indexed_height = meta_u64 last_height_key

  unfoldable pub tip_timestamp : Result Error (Option ℕ)
  unfolding meta_u64
  tip_timestamp = meta_u64 tip_timestamp_key

  unfoldable pub next_id : Bytes → Result Error ℕ
  unfolding meta_u64
  next_id key = do stored ← meta_u64 key; elim stored [ none ↦ ok 0 | some n ↦ ok n ]

  unfoldable pub ledger_state_window : Result Error LedgerStateWindow
  unfolding decoded
  ledger_state_window = do
    stored ← decoded P.window.decode (get s meta ledger_state_window_key)
    elim stored [ none ↦ ok [] | some window ↦ ok window ]

  unfoldable pub block : ℕ → Result Error (Option BlockRecord)
  unfolding decoded
  block height = decoded P.block.decode (get s blocks (u64_key height))

  unfoldable pub block_height_by_hash : Bytes → Result Error (Option ℕ)
  unfolding decoded
  block_height_by_hash hash = decoded (read_be 8) (get s blocks_by_hash hash)

  unfoldable pub tx : ℕ → Result Error (Option TxRecord)
  unfolding decoded
  tx tx_id = decoded P.tx.decode (get s txs (u64_key tx_id))

-- The gate that every entry point which decodes records passes first.
unfoldable pub require_current_schema : ℕ → Result Error (Unit {0})
require_current_schema schema = if schema == schema_current then ok tt else err not_current_schema

-- A stored value that decodes is what the lookup yields.
pub decoded-some :
    {A : Type 0} (decode : Bytes → Option A) (o : Option Bytes) {v : Bytes} {a : A}
    → o ≡ some v
    → decode v ≡ some a
    → decoded decode o ≡ ok (some a)
unfolding decoded
decoded-some decode o h k = rw (h, k, decoded)
