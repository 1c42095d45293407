-- ===== src/Checks/Correlating.antt =====
-- The backfill of contract events on a store with two events of one call.
use nightfrost.Prelude.{◌≤◌, ◌≡◌, refl, none, some, [], ◌∷◌, length, arith}
use nightfrost.Bytes.{to_be}
use nightfrost.Bytes.Order.{lex}
use nightfrost.Domain.{
  TransactionVariant, TransactionResult, LedgerEventGrouping, LedgerEventAttributes,
  ContractAttributes,
}
use nightfrost.Store.Fjall.{tag, insert, txs, contract_actions, ledger_events}
use nightfrost.Store.Records.{TxRecord, ContractActionRecord, EventRecord}
use nightfrost.Backfill.ContractEvents.{cache_limit, backfill_contract_events}
use nightfrost.Backfill.Cached.{backfill_uncached, backfill_contract_events-uncached}
use nightfrost.Checks.Postcards.{cells}
use nightfrost.Checks.Sample.{thirty_two}
use nightfrost.Checks.SortedStore.{
  SortedKeyspace, sorted_fjall, sorted_order, empty_sorted, put, delete,
}

abbrev calling_tx : TxRecord
calling_tx = record {
  hash = thirty_two 1;
  block_height = 3;
  index_in_block = 0;
  variant = TransactionVariant.regular;
  result = TransactionResult.success;
  paid_fees = 1;
  estimated_fees = 1;
  identifiers = [];
  contract_action_ids = 4 ∷ [];
  first_event_id = 0;
  event_count = 2;
  created_utxos = [];
  spent_utxos = [];
  raw = [];
}

abbrev calling_action : ContractActionRecord
calling_action = record {
  address = thirty_two 5;
  attributes = ContractAttributes.call (7 ∷ []);
  state_hash = none;
  balances = [];
  tx_id = 1;
  block_height = 3;
}

abbrev called_event : EventRecord
called_event = record {
  event = record {
    grouping = LedgerEventGrouping.contract;
    raw = [];
    attributes = LedgerEventAttributes.contract_paused 1 (7 ∷ []);
    contract_action_id = none;
    contract_address = some (thirty_two 5);
  };
  tx_id = 1;
  block_height = 3;
}

abbrev uncorrelated_store : SortedKeyspace
uncorrelated_store = sorted_fjall.commit empty_sorted (
    insert txs (to_be 8 1) (cells.tx.encode calling_tx)
    ∷ insert contract_actions (to_be 8 4) (cells.contract_action.encode calling_action)
    ∷ insert ledger_events (to_be 8 0) (cells.event.encode called_event)
    ∷ insert ledger_events (to_be 8 1) (cells.event.encode called_event)
    ∷ [])

two_events : length (sorted_order.entries uncorrelated_store ledger_events) ≡ 2
unfolding put delete tag lex to_be
two_events = refl

few_events : length (sorted_order.entries uncorrelated_store ledger_events) ≤ cache_limit
few_events = ground (arith, two_events)

backfill_contract_events-uncached_example :
    backfill_contract_events cells sorted_fjall sorted_order uncorrelated_store
    ≡ backfill_uncached cells sorted_fjall sorted_order uncorrelated_store
backfill_contract_events-uncached_example =
    backfill_contract_events-uncached cells sorted_fjall sorted_order uncorrelated_store few_events
