-- ===== src/Checks/Replaying.antt =====
-- The theorems on the replay, at a ledger state that counts the bytes that it was given.
use nightfrost.Prelude.{ℕ, ◌+◌, ◌≡◌, refl, true, none, some, List, [], ◌∷◌, length, Result, ok, err}
use nightfrost.Prelude.Keyed
use nightfrost.Bytes.{bytes_eq, to_be}
use nightfrost.Domain.{TransactionResult, ContractAttributes}
use nightfrost.Domain.Version.{ProtocolVersion, ledger_version, to_u32}
use nightfrost.Store.Error.{Error}
use nightfrost.Store.Fjall.{function_fjall}
use nightfrost.Store.Records.{to_stored}
use nightfrost.Pipeline.Chain.{Block, Transaction, regular, system}
use nightfrost.Pipeline.Writer.Defs.{
  AppliedTransaction, bump, new_writer, batch_insert, fold, fold_ok,
}
use nightfrost.Pipeline.Writer.Actions.{
  insert_state, next_contract, find_contract, point_contract, point_unless_failed, insert_action,
  write_action,
}
use nightfrost.Pipeline.Writer.Balances.{write_history}
use nightfrost.Pipeline.Writer.Events.{actions_with_ids}
use nightfrost.Pipeline.Writer.Transactions.{
  begin_transaction, event_count, write_action_id, write_transaction,
}
use nightfrost.Pipeline.Writer.Window.{evict, next_window}
use nightfrost.Pipeline.Writer.Commit.{meta_entries, write_block_record, block_batch, write_block}
use nightfrost.Pipeline.Replay.Facade.{Facade}
use nightfrost.Pipeline.Replay.Apply.{
  well_formed_timestamp, retry, apply_regular, balances_of, state_hash_of, action_record,
  apply_transaction,
}
use nightfrost.Pipeline.Replay.Index.{
  parent_time, is_regular, start_state, genesis, apply_transactions, root_matches, check, replay,
  Indexed, index_block,
}
use nightfrost.Pipeline.Replay.Derived.{IsDerived, apply_transactions-IsDerived}
use nightfrost.Pipeline.Replay.Guard.{Verified, index_block-Verified}
use nightfrost.Checks.Postcards.{cells}
use nightfrost.Checks.Sample.{thirty_two, sample_block, empty_store, no_ids}

abbrev pub counting : Facade
counting = record {
  State = ℕ;
  new = λ version. ok 0;
  from_genesis = λ raw version. ok (length raw);
  translate = λ state version. ok state;
  root = λ state. ok (state ∷ []);
  zswap_merkle_tree_root = λ state. state ∷ [];
  zswap_first_free = λ state. state;
  apply_regular_transaction = λ state raw parent time parent_time well_formed. ok (
    state + length raw,
    record {
      transaction_result = TransactionResult.success;
      created_unshielded_utxos = [];
      spent_unshielded_utxos = [];
      ledger_events = [];
      fees = 1;
    },
  );
  apply_system_transaction = λ state raw time.
      ok (state + length raw, record { created_unshielded_utxos = []; ledger_events = [] });
  finalize_apply_transactions = λ state time. ok state;
  persist = λ state. ok (state, state ∷ []);
  contract_balances = λ state version. ok [];
  sha256 = λ bytes. thirty_two (length bytes);
}

abbrev pub two_transactions : List Transaction
two_transactions =
    regular record {
      hash = thirty_two 3;
      protocol_version = ProtocolVersion.v1_0 1000000;
      raw = 1 ∷ 2 ∷ [];
      identifiers = [];
      contract_actions =
          record {
            address = thirty_two 5;
            state = 8 ∷ [];
            zswap_state = [];
            extracted_balances = [];
            attributes = ContractAttributes.deploy;
          }
          ∷ [];
    }
    ∷ system record {
      hash = thirty_two 4;
      protocol_version = ProtocolVersion.v1_0 1000000;
      raw = 3 ∷ [];
    }
    ∷ []

abbrev pub later_block : Block
later_block = record sample_block {
  height = 9;
  zswap_merkle_tree_root = 7 ∷ [];
  ledger_state_root = some (7 ∷ []);
  transactions = two_transactions;
}

abbrev replayed : Result Error (ℕ × List AppliedTransaction)
replayed = apply_transactions counting later_block 0 true 4 two_transactions

abbrev replayed_transactions : List AppliedTransaction
replayed_transactions = elim replayed [ ok (_, derived) ↦ derived | err _ ↦ [] ]

runs : replayed ≡ ok (7, replayed_transactions)
unfolding well_formed_timestamp retry apply_regular balances_of state_hash_of action_record
    apply_transaction is_regular apply_transactions ledger_version to_u32
runs = refl

apply_transactions-IsDerived_example : IsDerived 4 7 two_transactions replayed_transactions
apply_transactions-IsDerived_example =
    apply_transactions-IsDerived counting later_block 0 true 4 7 two_transactions
      replayed_transactions runs

abbrev pub nothing_indexed : Indexed counting function_fjall
nothing_indexed = record {
  state = 0;
  key = [];
  keyspace = empty_store;
  ids = no_ids;
  parent_block_timestamp = 0;
}

abbrev pub indexing : Result Error (Indexed counting function_fjall)
indexing = index_block counting cells function_fjall empty_store later_block none 4 0 [] no_ids

abbrev pub indexed : Indexed counting function_fjall
indexed = elim indexing [ ok r ↦ r | err _ ↦ nothing_indexed ]

pub indexes : indexing ≡ ok indexed
unfolding well_formed_timestamp retry apply_regular balances_of state_hash_of action_record
    apply_transaction is_regular apply_transactions ledger_version to_u32 parent_time start_state
    genesis root_matches check replay index_block Keyed.lookup Keyed.insert Keyed.member to_be
    bytes_eq to_stored bump new_writer batch_insert fold fold_ok insert_state next_contract
    find_contract point_contract point_unless_failed insert_action write_action write_history
    actions_with_ids begin_transaction event_count write_action_id write_transaction evict
    next_window meta_entries write_block_record block_batch write_block
indexes = refl

index_block-Verified_example :
    (final : ℕ) × (derived : List AppliedTransaction) × (replay counting later_block none 4 0
      ≡ ok (final, derived))
    × Verified counting later_block final
    × (counting.persist final ≡ ok (indexed.state, indexed.key))
    × (write_block cells function_fjall empty_store later_block derived indexed.key [] no_ids
        ≡ ok (indexed.keyspace, indexed.ids))
index_block-Verified_example =
    index_block-Verified counting cells function_fjall empty_store later_block none 4 0 [] no_ids
      indexed indexes
