-- ===== src/Checks/Parts.antt =====
-- The theorems on keys, versions, events, the block stream and the retention, at concrete data.
use nightfrost.Prelude.{
  ℕ, ◌≡◌, ◌↔◌, ◌++◌, ◌+◌, ◌-◌, ◌≤◌, All, true, refl, none, some, List, [], ◌∷◌, arith, length,
  Result, ok, err,
}
use nightfrost.Bytes.{codes}
use Prim.Native.Nat.{compare}
use nightfrost.Bytes.Order.{lex}
use nightfrost.Domain.{LedgerEvent, LedgerEventAttributes, ContractAttributes}
use nightfrost.Domain.Version.{
  ProtocolVersion, try_from, to_u32, InRange, try_from_sound, try_from-to_u32,
}
use nightfrost.Domain.Event.{
  contract_event, contract_entry_point, indexable_contract_fields, indexable_contract_field_names,
  contains, indexable_fields_named, IsBare,
}
use nightfrost.Domain.Correlate.{
  correlate_contract_action_id, IsOnlyCall, Action, correlate_iff_IsOnlyCall,
}
use nightfrost.Store.Records.{StoredLedgerVersion, LedgerStateWindow}
use nightfrost.Store.Keys.{
  prefixed_u64_key, key_u64_suffix, utxo_key, key_u64_suffix-prefixed_u64_key,
  prefixed_u64_key_order, prefixed_u64_key-injective, unspent_key-injective,
}
use nightfrost.Pipeline.Chain.{Block}
use nightfrost.Pipeline.NodeBlocks.{
  IsLinked, node_blocks, expected_parent, default_hash, node_blocks-IsLinked, node_blocks_whole,
}
use nightfrost.Pipeline.Retention.{push_key, push_key_retains}
use nightfrost.Pipeline.Writer.Window.{next_window, ledger_state_retention}
use nightfrost.Store.Error.{Error}
use nightfrost.Store.Fjall.{function_fjall}
use nightfrost.Store.Open.{open_schema, unmarked_schema, IsSettled, open_schema_again}
use nightfrost.Store.Reads.{decoded, meta_u64}
use nightfrost.Checks.Postcards.{cells}
use nightfrost.Checks.Sample.{empty_store, thirty_two, sample_utxo, sample_block}

key_u64_suffix-prefixed_u64_key_example :
    key_u64_suffix (prefixed_u64_key (codes "owner") 258) ≡ some 258
key_u64_suffix-prefixed_u64_key_example =
    key_u64_suffix-prefixed_u64_key (codes "owner") 258 (omega arith)

prefixed_u64_key_order_example :
    lex (prefixed_u64_key (codes "owner") 255) (prefixed_u64_key (codes "owner") 256)
    ≡ compare 255 256
prefixed_u64_key_order_example =
    prefixed_u64_key_order (codes "owner") 255 256 (omega arith) (omega arith)

prefixed_u64_key-injective_example : (thirty_two 7 ≡ thirty_two 7) × (◌≡◌ {A = ℕ} 9 9)
prefixed_u64_key-injective_example =
    prefixed_u64_key-injective (thirty_two 7) (thirty_two 7) 9 9 refl (omega arith) (omega arith)
      refl

unspent_key-injective_example :
    (thirty_two 7 ≡ thirty_two 7)
    × (thirty_two 0 ≡ thirty_two 0)
    × (utxo_key (thirty_two 9) 1 ≡ utxo_key (thirty_two 9) 1)
    × (thirty_two 9 ≡ thirty_two 9)
    × (◌≡◌ {A = ℕ} 1 1)
unspent_key-injective_example =
    unspent_key-injective (sample_utxo 1 3) (sample_utxo 1 3) refl refl refl (omega arith)
      (omega arith) refl

converts : try_from 1000007 ≡ ok (ProtocolVersion.v1_0 1000007)
unfolding try_from
converts = ground arith

try_from_sound_example :
    InRange (ProtocolVersion.v1_0 1000007) × (to_u32 (ProtocolVersion.v1_0 1000007) ≡ 1000007)
try_from_sound_example = try_from_sound 1000007 (ProtocolVersion.v1_0 1000007) converts

try_from-to_u32_example :
    try_from (to_u32 (ProtocolVersion.v2_1 2001999)) ≡ ok (ProtocolVersion.v2_1 2001999)
try_from-to_u32_example = try_from-to_u32 (ProtocolVersion.v2_1 2001999) (omega arith, omega arith)

abbrev sample_event : LedgerEvent
unfolding contract_event
sample_event =
    contract_event [] (thirty_two 5) none
      (LedgerEventAttributes.contract_shielded_spend 1 (codes "pay") (thirty_two 6))

abbrev sample_actions : List Action
sample_actions =
    (40, thirty_two 5, ContractAttributes.deploy)
    ∷ (41, thirty_two 5, ContractAttributes.call (codes "pay"))
    ∷ (42, thirty_two 5, ContractAttributes.call (codes "mint"))
    ∷ []

emitted_by_pay : contract_entry_point sample_event.attributes ≡ some (codes "pay")
unfolding contract_entry_point contract_event
emitted_by_pay = refl

correlate_iff_IsOnlyCall_example :
    (correlate_contract_action_id sample_event sample_actions ≡ some 41)
    ↔ IsOnlyCall (thirty_two 5) (codes "pay") 41 sample_actions
unfolding contract_event
correlate_iff_IsOnlyCall_example =
    correlate_iff_IsOnlyCall sample_event sample_actions 41 (thirty_two 5) (codes "pay") refl
      emitted_by_pay

indexable_fields_named_example :
    All
      (λ f. contains indexable_contract_field_names f.0 ≡ true)
      (indexable_contract_fields sample_event)
    × IsBare (contract_entry_point sample_event.attributes) (indexable_contract_fields sample_event)
indexable_fields_named_example = indexable_fields_named sample_event

abbrev sample_subscriptions : List (List (Result (Unit {0}) Block))
sample_subscriptions = (ok sample_block ∷ ok sample_block ∷ []) ∷ (err tt ∷ []) ∷ []

node_blocks-IsLinked_example :
    IsLinked (expected_parent none) (node_blocks none sample_subscriptions)
node_blocks-IsLinked_example = node_blocks-IsLinked none sample_subscriptions

abbrev good_subscription : List (Result (Unit {0}) Block)
good_subscription = err tt ∷ ok sample_block ∷ []

starts_chain : IsLinked (expected_parent none) good_subscription
unfolding expected_parent default_hash
starts_chain = (refl, tt)

node_blocks_whole_example : node_blocks none (good_subscription ∷ []) ≡ good_subscription
node_blocks_whole_example = node_blocks_whole none good_subscription starts_chain

abbrev one_key : LedgerStateWindow
one_key = (thirty_two 1, StoredLedgerVersion.v8) ∷ []

push_key_retains_example :
    ((push_key one_key (thirty_two 2) StoredLedgerVersion.v9).0
      ≡ next_window one_key (thirty_two 2) StoredLedgerVersion.v9)
    × ((push_key one_key (thirty_two 2) StoredLedgerVersion.v9).1
          ++ (push_key one_key (thirty_two 2) StoredLedgerVersion.v9).0
        ≡ one_key ++ (thirty_two 2, StoredLedgerVersion.v9) ∷ [])
    × (length (push_key one_key (thirty_two 2) StoredLedgerVersion.v9).0 ≤ ledger_state_retention)
    × (length (push_key one_key (thirty_two 2) StoredLedgerVersion.v9).1
        ≡ length one_key + 1 - ledger_state_retention)
push_key_retains_example = push_key_retains one_key (thirty_two 2) StoredLedgerVersion.v9

abbrev opened : Result Error (function_fjall.Keyspace × ℕ)
opened = open_schema function_fjall cells empty_store

abbrev opened_store : function_fjall.Keyspace
opened_store = elim opened [ ok (s, _) ↦ s | err _ ↦ empty_store ]

opens : opened ≡ ok (opened_store, 2)
unfolding open_schema unmarked_schema meta_u64 decoded
opens = refl

open_schema_again_example :
    IsSettled function_fjall cells empty_store opened_store 2
    × (open_schema function_fjall cells opened_store ≡ ok (opened_store, 2))
open_schema_again_example = open_schema_again function_fjall cells empty_store opened_store 2 opens
