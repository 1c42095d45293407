-- ===== src/Pipeline/Writer/Defs.antt =====
-- What `write_block` keeps while it goes through a block's transactions, and the folds over them.
use nightfrost.Prelude.{
  ℕ, ◌+◌, ◌%◌, ◌^◌, ◌≡◌, Option, none, some, List, [], ◌∷◌, ◌++◌, if◌then◌else◌, Result, ok, ◌>>=◌,
  >>=-eq-ok, ok-injective, subst,
}
use nightfrost.Prelude.Keyed.{Key}
use nightfrost.Bytes.{Bytes, bytes_eq, bytes_eq_iff}
use nightfrost.Domain.{TransactionResult, TransactionVariant, UnshieldedUtxo, LedgerEvent}
use nightfrost.Store.Error.{Error}
use nightfrost.Store.Fjall.{
  Partition, Batch, insert, remove, latest, latest-append, apply_write, same_key,
}
use nightfrost.Store.Records.{ContractActionRecord, ContractRecord, UtxoRecord}

-- `[u8; N]` and `Vec<u8>` as keys of a map.
instance abbrev pub bytes_key : Key Bytes
bytes_key = record { beq = bytes_eq; beq_iff = bytes_eq_iff }

-- `Counters`
pub record Counters : Type 0 where
  pub next_tx_id : ℕ
  pub next_action_id : ℕ
  pub next_event_id : ℕ

-- `+= 1` on a u64 of a release build
unfoldable pub bump : ℕ → ℕ
bump n = (n + 1) % 2 ^ 64

-- Everything derived from applying one transaction. An action comes with its address, its record
-- and the state blob.
pub record AppliedTransaction : Type 0 where
  pub hash : Bytes
  pub protocol_version : ℕ
  pub zswap_start_index : ℕ
  pub zswap_end_index : ℕ
  pub variant : TransactionVariant
  pub result : TransactionResult
  pub fees : ℕ
  pub identifiers : List Bytes
  pub contract_actions : List (Bytes × ContractActionRecord × Bytes)
  pub created_utxos : List UnshieldedUtxo
  pub spent_utxos : List UnshieldedUtxo
  pub ledger_events : List LedgerEvent
  pub raw : Bytes

-- The locals of `write_block`: the batch, the counters and the in-block caches. A balance delta
-- is an i128, kept as its 128 bits.
pub record Writer : Type 0 where
  pub batch : Batch
  pub ids : Counters
  pub created_this_block : List (Bytes × UtxoRecord)
  pub balance_deltas : List ((Bytes × Bytes) × ℕ)
  pub touched_addresses : List (Bytes × List ℕ)
  pub contracts_this_block : List (Bytes × ContractRecord)
  pub states_this_block : List Bytes

unfoldable pub new_writer : Counters → Writer
new_writer counters = record {
  batch = [];
  ids = counters;
  created_this_block = [];
  balance_deltas = [];
  touched_addresses = [];
  contracts_this_block = [];
  states_this_block = [];
}

-- `batch.insert`, `batch.remove`
unfoldable pub batch_insert : Batch → Partition → Bytes → Bytes → Batch
batch_insert batch p k v = batch ++ insert p k v ∷ []

unfoldable pub batch_remove : Batch → Partition → Bytes → Batch
batch_remove batch p k = batch ++ remove p k ∷ []

module _ (q : Partition) (j : Bytes) (old : Option Bytes) (batch : Batch) (p : Partition)
    (k : Bytes) where
  pub latest-batch_insert :
      (v : Bytes)
      → latest q j old (batch_insert batch p k v)
        ≡ (if same_key q j p k then some v else latest q j old batch)
  unfolding batch_insert latest apply_write
  latest-batch_insert v = latest-append q j old batch (insert p k v ∷ [])

  pub latest-batch_remove :
      latest q j old (batch_remove batch p k)
      ≡ (if same_key q j p k then none else latest q j old batch)
  unfolding batch_remove latest apply_write
  latest-batch_remove = latest-append q j old batch (remove p k ∷ [])

-- `for x in xs { … }`, with and without an early return.
unfoldable pub fold {ℓ κ} : {S : Type ℓ} {A : Type κ} → (S → A → S) → S → List A → S
fold step s [] = s
fold step s (x ∷ xs) = fold step (step s x) xs

unfoldable pub fold_ok {ℓ κ} :
    {S : Type ℓ} {A : Type κ} → (S → A → Result Error S) → S → List A → Result Error S
fold_ok step s [] = ok s
fold_ok step s (x ∷ xs) = step s x >>= λ t. fold_ok step t xs

-- A property that every step keeps holds at the end of a loop.
pub fold_keeps {ℓ κ ι} :
    {S : Type ℓ} {A : Type κ} (P : S → Type ι) (step : S → A → S)
    → ((s : S) (x : A) → P s → P (step s x))
    → (s : S) (xs : List A) → P s
    → P (fold step s xs)
unfolding fold
fold_keeps P step keep s [] h = h
fold_keeps P step keep s (x ∷ xs) h = fold_keeps P step keep (step s x) xs (keep s x h)

pub fold_ok_keeps {ℓ κ ι} :
    {S : Type ℓ} {A : Type κ} (P : S → Type ι) (step : S → A → Result Error S)
    → ((s t : S) (x : A) → step s x ≡ ok t → P s → P t)
    → (s t : S) (xs : List A) → fold_ok step s xs ≡ ok t
    → P s
    → P t
unfolding fold_ok
fold_ok_keeps P step keep s t [] e h = subst P (ok-injective e) h
fold_ok_keeps P step keep s t (x ∷ xs) e h =
    let (m, first, rest) = >>=-eq-ok (step s x) (λ m. fold_ok step m xs) e in
    fold_ok_keeps P step keep m t xs rest (keep s m x first h)
