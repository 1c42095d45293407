-- ===== src/Pipeline/Writer/Balances.antt =====
-- The balances and the address history that `write_block` of crates/nightfrost-chain/src/pipeline.rs
-- writes from its in-block maps. A map is gone through in the order of its entries.
use nightfrost.Prelude.{ℕ, ◌^◌, none, some, List, [], ltb, if◌then◌else◌, Result, ok, err, ◌>>=◌}
use nightfrost.Bytes.{Bytes, read_be, to_be}
use nightfrost.Store.Error.{Error, balance_underflow}
use nightfrost.Store.Fjall.{Fjall, Batch, balances, addr_txs}
use nightfrost.Store.Keys.{balance_key, prefixed_u64_key}
use nightfrost.Store.Reads.{decoded}
use nightfrost.Pipeline.Writer.Defs.{batch_insert, fold}
use nightfrost.Pipeline.Writer.Utxos.{i128_add}

-- `try_into()` from an i128, given by its bits, to a u128.
unfoldable pub u128_of_i128 : ℕ → Result Error ℕ
u128_of_i128 bits = if ltb bits (2 ^ 127) then ok bits else err balance_underflow

module _ (F : Fjall) (s : F.Keyspace) where
  unfoldable pub current_balance : Bytes → Result Error ℕ
  unfolding decoded
  current_balance key = do
    stored ← decoded (read_be 16) (F.get s balances key)
    elim stored [ none ↦ ok 0 | some amount ↦ ok amount ]

  unfoldable pub write_balance : Batch → (Bytes × Bytes) × ℕ → Result Error Batch
  unfolding current_balance u128_of_i128
  write_balance batch ((owner, token_type), delta) = do
    let key = balance_key owner token_type
    current ← current_balance key
    updated ← u128_of_i128 (i128_add current delta)
    ok (batch_insert batch balances key (to_be 16 updated))

unfoldable pub write_history : Batch → Bytes × List ℕ → Batch
write_history batch (owner, tx_ids) =
    fold (λ b tx_id. batch_insert b addr_txs (prefixed_u64_key owner tx_id) []) batch tx_ids
