-- ===== src/Checks/Sample.antt =====
-- A block of two transactions over an empty store: the first creates two utxos of one account and
-- the second spends one of them.
use nightfrost.Prelude.{ℕ, true, none, List, [], ◌∷◌, Result, ok, err}
use nightfrost.Bytes.{Bytes}
use nightfrost.Domain.{UnshieldedUtxo, TransactionVariant, TransactionResult}
use nightfrost.Domain.Version.{ProtocolVersion}
use nightfrost.Store.Error.{Error}
use nightfrost.Store.Fjall.{function_fjall}
use nightfrost.Pipeline.Chain.{Block}
use nightfrost.Pipeline.Writer.Defs.{Counters, AppliedTransaction}
use nightfrost.Pipeline.Writer.Commit.{write_block}
use nightfrost.Checks.Postcards.{cells}

abbrev pub thirty_two : ℕ → Bytes
thirty_two b =
    b ∷ b ∷ b ∷ b ∷ b ∷ b ∷ b ∷ b ∷ b ∷ b ∷ b ∷ b ∷ b ∷ b ∷ b ∷ b ∷ b ∷ b ∷ b ∷ b ∷ b ∷ b ∷ b ∷ b
    ∷ b ∷ b ∷ b ∷ b ∷ b ∷ b ∷ b ∷ b ∷ []

abbrev pub sample_utxo : ℕ → ℕ → UnshieldedUtxo
sample_utxo index amount = record {
  owner = thirty_two 7;
  token_type = thirty_two 0;
  value = amount;
  intent_hash = thirty_two 9;
  output_index = index;
  ctime = none;
  initial_nonce = thirty_two 1;
  registered_for_dust_generation = true;
}

abbrev pub sample_transaction : ℕ → List UnshieldedUtxo → List UnshieldedUtxo → AppliedTransaction
sample_transaction tag created spent = record {
  hash = thirty_two tag;
  protocol_version = 1000000;
  zswap_start_index = 0;
  zswap_end_index = 0;
  variant = TransactionVariant.regular;
  result = TransactionResult.success;
  fees = 1;
  identifiers = [];
  contract_actions = [];
  created_utxos = created;
  spent_utxos = spent;
  ledger_events = [];
  raw = tag ∷ [];
}

abbrev pub sample_transactions : List AppliedTransaction
sample_transactions =
    sample_transaction 3 (sample_utxo 0 5 ∷ sample_utxo 1 3 ∷ []) []
    ∷ sample_transaction 4 [] (sample_utxo 1 3 ∷ [])
    ∷ []

abbrev pub sample_block : Block
sample_block = record {
  hash = thirty_two 12;
  height = 0;
  protocol_version = ProtocolVersion.v1_0 1000000;
  parent_hash = thirty_two 0;
  author = none;
  timestamp = 1700000000;
  zswap_merkle_tree_root = [];
  ledger_state_root = none;
  transactions = [];
  dust_registration_events = [];
}

abbrev pub empty_store : function_fjall.Keyspace
empty_store = λ _ _. none

abbrev pub no_ids : Counters
no_ids = record { next_tx_id = 0; next_action_id = 0; next_event_id = 0 }

abbrev pub written_sample : Result Error (function_fjall.Keyspace × Counters)
written_sample =
    write_block cells function_fjall empty_store sample_block sample_transactions [] [] no_ids

abbrev pub store_after : function_fjall.Keyspace
store_after = elim written_sample [ ok (s, _) ↦ s | err _ ↦ empty_store ]

abbrev pub ids_after : Counters
ids_after = record { next_tx_id = 2; next_action_id = 0; next_event_id = 0 }
