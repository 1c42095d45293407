-- ===== src/Pipeline/Writer/Utxos.antt =====
-- The created and the spent utxos of one transaction: the two loops of `write_block` over them,
-- in crates/nightfrost-chain/src/pipeline.rs.
use nightfrost.Prelude.{
  ℕ, ◌+◌, ◌-◌, ◌%◌, ◌^◌, none, some, List, [], ◌∷◌, ◌++◌, Result, ok, err, ◌>>=◌,
}
use nightfrost.Prelude.Keyed
use nightfrost.Prelude.Keyed.{Key, pair_key}
use nightfrost.Bytes.{Bytes}
use nightfrost.Domain.{UnshieldedUtxo}
use nightfrost.Store.Error.{Error, spent_utxo_not_found}
use nightfrost.Store.Fjall.{Fjall, utxos, utxos_unspent_by_owner}
use nightfrost.Store.Keys.{utxo_key, unspent_key}
use nightfrost.Store.Reads.{decoded}
use nightfrost.Store.Records.{Postcard, UtxoRecord}
use nightfrost.Pipeline.Writer.Defs.{Writer, bytes_key, batch_insert, batch_remove}

-- i128 `+=` and `-=` of a release build, on the 128 bits of each number. `u128 as i128` keeps
-- the bits.
unfoldable pub i128_add : ℕ → ℕ → ℕ
i128_add a b = (a + b) % 2 ^ 128

unfoldable pub i128_sub : ℕ → ℕ → ℕ
i128_sub a b = (a + (2 ^ 128 - b % 2 ^ 128)) % 2 ^ 128

abbrev pub Deltas : Type 0
Deltas = List ((Bytes × Bytes) × ℕ)

-- `*balance_deltas.entry(key).or_default()`
unfoldable pub delta_of : Bytes × Bytes → Deltas → ℕ
delta_of key deltas = elim (Keyed.lookup key deltas) [ none ↦ 0 | some d ↦ d ]

-- `touched_addresses.entry(owner).or_default().push(tx_id)`
unfoldable pub touch : Bytes → ℕ → List (Bytes × List ℕ) → List (Bytes × List ℕ)
touch owner tx_id touched =
    Keyed.insert owner
      (elim (Keyed.lookup owner touched) [ none ↦ tx_id ∷ [] | some ids ↦ ids ++ tx_id ∷ [] ])
      touched

module _ (P : Postcard) (tx_id : ℕ) where
  unfoldable pub create_utxo : Writer → UnshieldedUtxo → Writer
  create_utxo w u =
      let key = utxo_key u.intent_hash u.output_index in
      let made : UtxoRecord = record { utxo = u; creating_tx_id = tx_id; spending_tx_id = none } in
      let account : Bytes × Bytes = (u.owner, u.token_type) in
      record w {
        batch =
            batch_insert (batch_insert w.batch utxos key (P.utxo.encode made))
              utxos_unspent_by_owner (unspent_key u) key;
        created_this_block = Keyed.insert key made w.created_this_block;
        balance_deltas =
            Keyed.insert account (i128_add (delta_of account w.balance_deltas) u.value)
              w.balance_deltas;
        touched_addresses = touch u.owner tx_id w.touched_addresses;
      }

  module _ (F : Fjall) (s : F.Keyspace) where
    -- The record to mark: this block's, or else the store's.
    unfoldable pub find_utxo : Writer → Bytes → Result Error UtxoRecord
    unfolding decoded
    find_utxo w key = elim (Keyed.lookup key w.created_this_block) [
      | some found ↦ ok found
      | none ↦ (do
        stored ← decoded P.utxo.decode (F.get s utxos key)
        elim stored [ none ↦ err spent_utxo_not_found | some found ↦ ok found ])
    ]

    unfoldable pub mark_spent : Writer → UnshieldedUtxo → UtxoRecord → Writer
    mark_spent w u found =
        let key = utxo_key u.intent_hash u.output_index in
        let spent : UtxoRecord = record found { spending_tx_id = some tx_id } in
        let account : Bytes × Bytes = (u.owner, u.token_type) in
        record w {
          batch =
              batch_remove (batch_insert w.batch utxos key (P.utxo.encode spent))
                utxos_unspent_by_owner (unspent_key u);
          created_this_block = Keyed.insert key spent w.created_this_block;
          balance_deltas =
              Keyed.insert account (i128_sub (delta_of account w.balance_deltas) u.value)
                w.balance_deltas;
          touched_addresses = touch u.owner tx_id w.touched_addresses;
        }

    unfoldable pub spend_utxo : Writer → UnshieldedUtxo → Result Error Writer
    unfolding mark_spent
    spend_utxo w u = do
      found ← find_utxo w (utxo_key u.intent_hash u.output_index)
      ok (mark_spent w u found)
