-- ===== src/Checks/Restarting.antt =====
-- A restart after the block of the replay's tests, on ledger states that are numbers.
use nightfrost.Prelude.{ℕ, ◌≡◌, refl, none, some, [], ◌∷◌, Result, ok, err}
use nightfrost.Prelude.Keyed
use nightfrost.Bytes.{bytes_eq, to_be}
use nightfrost.Domain.Version.{ledger_version, to_u32}
use nightfrost.Store.Error.{Error}
use nightfrost.Store.Fjall.{function_fjall}
use nightfrost.Store.Records.{to_stored}
use nightfrost.Pipeline.Writer.Defs.{bump, new_writer, batch_insert, fold, fold_ok}
use nightfrost.Pipeline.Writer.Actions.{
  insert_state, next_contract, find_contract, point_contract, point_unless_failed, insert_action,
  write_action,
}
use nightfrost.Pipeline.Writer.Balances.{write_history}
use nightfrost.Pipeline.Writer.Events.{actions_with_ids}
use nightfrost.Pipeline.Writer.Transactions.{
  begin_transaction, event_count, write_action_id, write_transaction,
}
use nightfrost.Pipeline.Writer.Window.{evict, next_window}
use nightfrost.Pipeline.Writer.Commit.{meta_entries, write_block_record, block_batch, write_block}
use nightfrost.Pipeline.Replay.Apply.{
  well_formed_timestamp, retry, apply_regular, balances_of, state_hash_of, action_record,
  apply_transaction,
}
use nightfrost.Pipeline.Replay.Index.{
  parent_time, is_regular, start_state, genesis, apply_transactions, root_matches, check, replay,
  Indexed, index_block,
}
use nightfrost.Checks.Postcards.{cells}
use nightfrost.Checks.Sample.{empty_store, no_ids}
use nightfrost.Prelude.{◌+◌, ◌<◌, ◌^◌, arith, ap, ◌++◌, ◌>>=◌}
use nightfrost.Bytes.{Bytes}
use nightfrost.Store.Error.{LedgerError}
use nightfrost.Store.Fjall.{latest, apply_write, same_key, tag}
use nightfrost.Store.Records.{from_stored}
use nightfrost.Pipeline.Chain.{block_ref}
use nightfrost.Pipeline.Retention.{push_key}
use nightfrost.Pipeline.Startup.{same_chain}
use nightfrost.Pipeline.Run.{Storage, Running, is_among, is_persisted, retain, start, run_block}
use nightfrost.Pipeline.Restarted.{ledger_storage, start-run_block_ledger}
use nightfrost.Checks.Replaying.{later_block}
use nightfrost.Checks.Sample.{thirty_two}
use nightfrost.Prelude.{length}
use nightfrost.Domain.{TransactionResult}
use nightfrost.Pipeline.Replay.Facade.{Facade}
use nightfrost.Ledger.State
use nightfrost.Ledger.State.{
  SyntheticCost, no_cost, CostModel, Crate, LedgerState, v8, v9, translate, state_version, root,
  persist, root_hash_bytes, finalize_inner, finalize_apply_transactions, Application, ledger_facade,
}

-- Ledger states are numbers, and each transaction adds its length and some use of the block.
abbrev number_costs : CostModel
number_costs = record {
  FixedPoint = ℕ;
  max = λ a b. a + b;
  normalize = λ cost limits. record {
    read_time = cost.read_time;
    compute_time = cost.compute_time;
    block_usage = cost.block_usage;
    bytes_written = cost.bytes_written;
    bytes_churned = cost.bytes_churned;
  };
}

abbrev load_number : Bytes → Result LedgerError ℕ
load_number [] = err (LedgerError.other_ledger_error [])
load_number (n ∷ rest) = ok n

load_number-key :
    (n : ℕ) (key : Bytes)
    → ◌≡◌ {A = Result LedgerError Bytes} (ok (n ∷ [])) (ok key)
    → load_number key ≡ ok n
load_number-key n [] e = cc
load_number-key n (m ∷ rest) e = cc

abbrev usage : ℕ → SyntheticCost
usage n = record {
  read_time = 0;
  compute_time = 0;
  block_usage = n;
  bytes_written = 0;
  bytes_churned = 0;
}

abbrev numbers : Crate number_costs
numbers = record {
  Inner = ℕ;
  new = 0;
  tagged_deserialize = load_number;
  get_lazy = load_number;
  alloc_key = λ n. ok (n ∷ []);
  persist_key = λ n. ok (n ∷ []);
  get_lazy-persist_key = load_number-key;
  root_hash = λ key. ok key;
  block_limits = λ n. usage 9;
  post_block_update = λ n time cost fullness. ok n;
  zswap_merkle_tree_root = λ n. n ∷ [];
  zswap_first_free = λ n. n;
}

abbrev Numbered : Type 0
Numbered = LedgerState number_costs numbers numbers

abbrev grow : ℕ → Numbered → Numbered
grow n (v8 m c) = v8 (m + n) (usage (c.block_usage + n))
grow n (v9 m c) = v9 (m + n) (usage (c.block_usage + n))

abbrev growing : Application number_costs numbers numbers
growing = record {
  apply_regular_transaction = λ state raw parent time parent_time well_formed. ok (
    grow (length raw) state,
    record {
      transaction_result = TransactionResult.success;
      created_unshielded_utxos = [];
      spent_unshielded_utxos = [];
      ledger_events = [];
      fees = 1;
    },
  );
  apply_system_transaction = λ state raw time.
      ok (grow (length raw) state, record { created_unshielded_utxos = []; ledger_events = [] });
  contract_balances = λ state version. ok [];
  sha256 = λ bytes. thirty_two (length bytes);
}

abbrev facade : Facade
facade = ledger_facade number_costs numbers numbers growing

abbrev storage : Storage facade
storage = ledger_storage number_costs numbers numbers growing

abbrev nothing_indexed : Indexed facade function_fjall
nothing_indexed = record {
  state = v8 0 no_cost;
  key = [];
  keyspace = empty_store;
  ids = no_ids;
  parent_block_timestamp = 0;
}

abbrev indexing : Result Error (Indexed facade function_fjall)
indexing =
    index_block facade cells function_fjall empty_store later_block none (v8 4 no_cost) 0 [] no_ids

abbrev indexed : Indexed facade function_fjall
indexed = elim indexing [ ok r ↦ r | err _ ↦ nothing_indexed ]

indexes : indexing ≡ ok indexed
unfolding well_formed_timestamp retry apply_regular balances_of state_hash_of action_record
    apply_transaction is_regular apply_transactions ledger_version to_u32 parent_time start_state
    genesis root_matches check replay index_block Keyed.lookup Keyed.insert Keyed.member to_be
    bytes_eq to_stored bump new_writer batch_insert fold fold_ok insert_state next_contract
    find_contract point_contract point_unless_failed insert_action write_action write_history
    actions_with_ids begin_transaction event_count write_action_id write_transaction evict
    next_window meta_entries write_block_record block_batch write_block translate persist root
    finalize_inner finalize_apply_transactions State.zswap_merkle_tree_root State.zswap_first_free
indexes = refl

abbrev before : Running facade storage cells function_fjall
before = record {
  keyspace = empty_store;
  state = v8 4 no_cost;
  window = [];
  ids = no_ids;
  parent_block_timestamp = 0;
  unpersisted = [];
}

abbrev next : Indexed facade function_fjall → Running facade storage cells function_fjall
next r = record {
  keyspace = r.keyspace;
  state = r.state;
  window = (push_key [] r.key (to_stored (state_version number_costs numbers numbers r.state))).0;
  ids = r.ids;
  parent_block_timestamp = r.parent_block_timestamp;
  unpersisted =
      [] ++ (push_key [] r.key (to_stored (state_version number_costs numbers numbers r.state))).1;
}

abbrev after : Running facade storage cells function_fjall
after = next indexed

ran : run_block facade storage cells function_fjall before later_block none ≡ ok after
unfolding run_block ledger_storage
ran = ap (λ (x : Result Error (Indexed facade function_fjall)). x >>= λ r. ok (next r)) indexes

on_chain : same_chain cells function_fjall after.keyspace [] ≡ ok tt
unfolding translate persist root finalize_inner finalize_apply_transactions
    State.zswap_merkle_tree_root State.zswap_first_free same_chain latest apply_write same_key tag
    well_formed_timestamp retry apply_regular balances_of state_hash_of action_record
    apply_transaction is_regular apply_transactions ledger_version to_u32 parent_time start_state
    genesis root_matches check replay index_block Keyed.lookup Keyed.insert Keyed.member to_be
    bytes_eq to_stored bump new_writer batch_insert fold fold_ok insert_state next_contract
    find_contract point_contract point_unless_failed insert_action write_action write_history
    actions_with_ids begin_transaction event_count write_action_id write_transaction evict
    next_window meta_entries write_block_record block_batch write_block
on_chain = refl

all_kept : retain facade storage cells function_fjall (indexed.key ∷ []) after.window ≡ after.window
unfolding translate persist root finalize_inner finalize_apply_transactions
    State.zswap_merkle_tree_root State.zswap_first_free ledger_storage root_hash_bytes state_version
    retain is_persisted is_among from_stored push_key well_formed_timestamp retry apply_regular
    balances_of state_hash_of action_record apply_transaction is_regular apply_transactions
    ledger_version to_u32 parent_time start_state genesis root_matches check replay index_block
    Keyed.lookup Keyed.insert Keyed.member to_be bytes_eq to_stored bump new_writer batch_insert
    fold fold_ok insert_state next_contract find_contract point_contract point_unless_failed
    insert_action write_action write_history actions_with_ids begin_transaction event_count
    write_action_id write_transaction evict next_window meta_entries write_block_record block_batch
    write_block
all_kept = refl

is_v8 :
    state_version number_costs numbers numbers after.state
    ≡ ledger_version later_block.protocol_version
unfolding state_version well_formed_timestamp retry apply_regular balances_of state_hash_of
    action_record apply_transaction is_regular apply_transactions ledger_version to_u32 parent_time
    start_state genesis root_matches check replay index_block Keyed.lookup Keyed.insert Keyed.member
    to_be bytes_eq to_stored bump new_writer batch_insert fold fold_ok insert_state next_contract
    find_contract point_contract point_unless_failed insert_action write_action write_history
    actions_with_ids begin_transaction event_count write_action_id write_transaction evict
    next_window meta_entries write_block_record block_batch write_block translate persist root
    finalize_inner finalize_apply_transactions State.zswap_merkle_tree_root State.zswap_first_free
is_v8 = refl

few_ids :
    (indexed.ids.next_tx_id < 256 ^ 8)
    × (indexed.ids.next_action_id < 256 ^ 8)
    × (indexed.ids.next_event_id < 256 ^ 8)
unfolding well_formed_timestamp retry apply_regular balances_of state_hash_of action_record
    apply_transaction is_regular apply_transactions ledger_version to_u32 parent_time start_state
    genesis root_matches check replay index_block Keyed.lookup Keyed.insert Keyed.member to_be
    bytes_eq to_stored bump new_writer batch_insert fold fold_ok insert_state next_contract
    find_contract point_contract point_unless_failed insert_action write_action write_history
    actions_with_ids begin_transaction event_count write_action_id write_transaction evict
    next_window meta_entries write_block_record block_batch write_block translate persist root
    finalize_inner finalize_apply_transactions State.zswap_merkle_tree_root State.zswap_first_free
few_ids = omega arith

start-run_block_ledger_example :
    start facade storage cells function_fjall [] (indexed.key ∷ []) after.keyspace
    ≡ ok (
      some (block_ref later_block),
      record {
        keyspace = after.keyspace;
        state = after.state;
        window = after.window;
        ids = after.ids;
        parent_block_timestamp = after.parent_block_timestamp;
        unpersisted = [];
      },
    )
start-run_block_ledger_example =
    start-run_block_ledger number_costs numbers numbers growing cells function_fjall later_block []
      (indexed.key ∷ []) before after none (omega arith) (omega arith) ran on_chain all_kept is_v8
      few_ids.0 few_ids.1 few_ids.2
