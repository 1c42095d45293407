-- ===== src/Backfill/ContractEvents.antt =====
-- `backfill_contract_events` of crates/nightfrost/src/backfill.rs: the events of contracts are
-- indexed by address and correlated with the calls that emitted them.
use nightfrost.Prelude.{
  ℕ, ◌+◌, Bool, true, false, Option, none, some, List, [], ◌∷◌, ◌++◌, map, leb, ltb, length, ◌==◌,
  ==_iff, Result, ok, ◌>>=◌, ok_or, if◌then◌else◌,
}
use nightfrost.Prelude.Keyed.{Key, lookup, insert as cache_insert}
use nightfrost.Bytes.{Bytes, read_be}
use nightfrost.Domain.{LedgerEventGrouping}
use nightfrost.Domain.Correlate.{Action, correlate_contract_action_id}
use nightfrost.Store.Error.{
  Error, panicked, bad_event_id, missing_tx, missing_action, contract_event_without_address,
}
use nightfrost.Store.Fjall.{
  Fjall, insert, Batch, contract_actions, ledger_events, events_by_contract,
}
use nightfrost.Store.Keys.{prefixed_u64_key, u64_key}
use nightfrost.Store.Ordered.{Entry, Ordered}
use nightfrost.Store.Reads.{decoded, tx}
use nightfrost.Store.Records.{Postcard, ContractActionRecord, EventRecord}
use nightfrost.Backfill.ContractStates.{commit_every}

pub record BackfillCounts : Type 0 where
  pub events_scanned : ℕ
  pub contract_events_indexed : ℕ
  pub events_correlated : ℕ
  pub records_rewritten : ℕ

abbrev pub cache_limit : ℕ
cache_limit = 10000

instance abbrev pub id_key : Key ℕ
id_key = record { beq = λ a b. a == b; beq_iff = ==_iff }

-- Transaction id to that transaction's contract actions with their ids.
abbrev pub ActionsCache : Type 0
ActionsCache = List (ℕ × List (ℕ × ContractActionRecord))

-- `or`
unfoldable pub or_id : Option ℕ → Option ℕ → Option ℕ
or_id none other = other
or_id (some id) other = some id

unfoldable pub same_id : Option ℕ → Option ℕ → Bool
same_id none none = true
same_id none (some j) = false
same_id (some i) none = false
same_id (some i) (some j) = i == j

unfoldable pub is_some_id : Option ℕ → Bool
is_some_id none = false
is_some_id (some id) = true

unfoldable pub action_of : ℕ × ContractActionRecord → Action
action_of (id, action) = (id, action.address, action.attributes)

unfoldable pub with_action : EventRecord → Option ℕ → EventRecord
with_action record_in correlated = record {
  event = record {
    grouping = record_in.event.grouping;
    raw = record_in.event.raw;
    attributes = record_in.event.attributes;
    contract_action_id = correlated;
    contract_address = record_in.event.contract_address;
  };
  tx_id = record_in.tx_id;
  block_height = record_in.block_height;
}

unfoldable pub is_contract : LedgerEventGrouping → Bool
is_contract LedgerEventGrouping.zswap = false
is_contract LedgerEventGrouping.dust = false
is_contract LedgerEventGrouping.contract = true

module _ (P : Postcard) (F : Fjall) where
  -- The locals of the loop, but for the cache.
  pub record Backfill : Type 0 where
    pub keyspace : F.Keyspace
    pub batch : Batch
    pub pending : ℕ
    pub counts : BackfillCounts

  unfoldable pub read_actions : F.Keyspace → List ℕ → Result Error (List (ℕ × ContractActionRecord))
  read_actions s [] = ok []
  read_actions s (action_id ∷ ids) = do
    found ← decoded P.contract_action.decode (F.get s contract_actions (u64_key action_id))
    action ← ok_or found missing_action
    rest ← read_actions s ids
    ok ((action_id, action) ∷ rest)

  unfoldable pub tx_actions : F.Keyspace → ℕ → Result Error (List (ℕ × ContractActionRecord))
  tx_actions s tx_id = do
    found ← tx F P s tx_id
    record_in ← ok_or found missing_tx
    read_actions s record_in.contract_action_ids

  -- The cache is cleared once it is too large, with what was just put into it.
  unfoldable pub remember : ℕ → List (ℕ × ContractActionRecord) → ActionsCache → ActionsCache
  remember tx_id actions cache =
      let grown = cache_insert tx_id actions cache in
      if ltb cache_limit (length grown) then [] else grown

  unfoldable pub fill : F.Keyspace → ℕ → ActionsCache → Result Error ActionsCache
  fill s tx_id cache = elim (lookup tx_id cache) [
    | some _ ↦ ok cache
    | none ↦ do actions ← tx_actions s tx_id; ok (remember tx_id actions cache)
  ]

  unfoldable pub index_address : ℕ → Bytes → Backfill → Backfill
  index_address event_id address b = record {
    keyspace = b.keyspace;
    batch = b.batch ++ (insert events_by_contract (prefixed_u64_key address event_id) [] ∷ []);
    pending = b.pending + 1;
    counts = record {
      events_scanned = b.counts.events_scanned;
      contract_events_indexed = b.counts.contract_events_indexed + 1;
      events_correlated = b.counts.events_correlated;
      records_rewritten = b.counts.records_rewritten;
    };
  }

  unfoldable pub correlated_id : EventRecord → List (ℕ × ContractActionRecord) → Option ℕ
  correlated_id record_in actions =
      or_id (correlate_contract_action_id record_in.event (map action_of actions))
        record_in.event.contract_action_id

  unfoldable pub rewrite_event : Bytes → EventRecord → Option ℕ → Backfill → Backfill
  rewrite_event key record_in correlated b =
      let known = if is_some_id correlated then 1 else 0 in
      if same_id record_in.event.contract_action_id correlated
      then record {
        keyspace = b.keyspace;
        batch = b.batch;
        pending = b.pending;
        counts = record {
          events_scanned = b.counts.events_scanned;
          contract_events_indexed = b.counts.contract_events_indexed;
          events_correlated = b.counts.events_correlated + known;
          records_rewritten = b.counts.records_rewritten;
        };
      }
      else record {
        keyspace = b.keyspace;
        batch =
            b.batch
            ++ (insert ledger_events key (P.event.encode (with_action record_in correlated)) ∷ []);
        pending = b.pending + 1;
        counts = record {
          events_scanned = b.counts.events_scanned;
          contract_events_indexed = b.counts.contract_events_indexed;
          events_correlated = b.counts.events_correlated + known;
          records_rewritten = b.counts.records_rewritten + 1;
        };
      }

  unfoldable pub commit_batch : Backfill → Backfill
  commit_batch b =
      if leb commit_every b.pending
      then record {
        keyspace = F.commit b.keyspace b.batch;
        batch = [];
        pending = 0;
        counts = b.counts;
      }
      else b

  unfoldable pub scanned : Backfill → Backfill
  scanned b = record {
    keyspace = b.keyspace;
    batch = b.batch;
    pending = b.pending;
    counts = record {
      events_scanned = b.counts.events_scanned + 1;
      contract_events_indexed = b.counts.contract_events_indexed;
      events_correlated = b.counts.events_correlated;
      records_rewritten = b.counts.records_rewritten;
    };
  }

  -- The actions that an event is correlated with: read, or from the cache.
  abbrev pub Source : Type 0
  Source =
      F.Keyspace → ℕ → ActionsCache → Result Error (List (ℕ × ContractActionRecord) × ActionsCache)

  -- `&actions_cache[&tx_id]` panics where the entry was cleared.
  unfoldable pub cached : Source
  cached s tx_id cache = do
    filled ← fill s tx_id cache
    actions ← ok_or (lookup tx_id filled) panicked
    ok (actions, filled)

  unfoldable pub correlate_event :
      Source
      → ℕ
      → Bytes
      → EventRecord
      → Backfill
      → ActionsCache
      → Result Error (Backfill × ActionsCache)
  correlate_event source event_id key record_in b cache =
      if is_contract record_in.event.grouping
      then (do
        address ← ok_or record_in.event.contract_address contract_event_without_address
        let indexed = index_address event_id address b in
            (do
              (actions, later) ← source indexed.keyspace record_in.tx_id cache
              ok (
                commit_batch
                    (rewrite_event key record_in (correlated_id record_in actions) indexed),
                later,
              )))
      else ok (b, cache)

  unfoldable pub backfill_event :
      Source → Entry → Backfill → ActionsCache → Result Error (Backfill × ActionsCache)
  backfill_event source (key, value) b cache = do
    event_id ← ok_or (read_be 8 key) bad_event_id
    record_in ← ok_or (P.event.decode value) panicked
    correlate_event source event_id key record_in (scanned b) cache

  unfoldable pub backfill_events :
      Source → List Entry → Backfill → ActionsCache → Result Error Backfill
  backfill_events source [] b cache = ok b
  backfill_events source (entry ∷ entries) b cache = do
    (next, later) ← backfill_event source entry b cache
    backfill_events source entries next later

  abbrev pub backfill_start : F.Keyspace → Backfill
  backfill_start s = record {
    keyspace = s;
    batch = [];
    pending = 0;
    counts = record {
      events_scanned = 0;
      contract_events_indexed = 0;
      events_correlated = 0;
      records_rewritten = 0;
    };
  }

  unfoldable pub commit_rest : Backfill → F.Keyspace × BackfillCounts
  commit_rest b = (F.commit b.keyspace b.batch, b.counts)

  unfoldable pub backfill_contract_events :
      Ordered F → F.Keyspace → Result Error (F.Keyspace × BackfillCounts)
  backfill_contract_events O s = do
    b ← backfill_events cached (O.entries s ledger_events) (backfill_start s) []
    ok (commit_rest b)
