-- ===== src/Checks/BlockPages.antt =====
-- Following the pages of a block of two transactions.
use nightfrost.Prelude.{
  ℕ, zero, suc, ◌-◌, ◌<◌, ◌≡◌, refl, Option, none, some, [], ◌∷◌, map, arith, ok,
}
use nightfrost.Bytes.{Bytes, IsArray, to_be, read_be, from_be_acc, bytes_eq, codes}
use nightfrost.Domain.{TransactionVariant, TransactionResult}
use nightfrost.Store.Fjall.{
  function_fjall, meta, blocks, txs, insert, latest, apply_write, same_key, tag,
}
use nightfrost.Store.Records.{BlockRecord, TxRecord, last_height_key}
use nightfrost.Store.Reads.{decoded, meta_u64, last_indexed_height, block, tx}
use nightfrost.Api.Pagination.{desc}
use nightfrost.Api.Pagination.Cursor.{TipAnchor}
use nightfrost.Api.Routes.Context.{current_tip, validate_anchor}
use nightfrost.Api.Routes.Blocks.{Formats, resolve_height, resolve_block}
use nightfrost.Api.Routes.BlockTxs.{ordered, indexed_hash}
use nightfrost.Api.Routes.Pages.{read_pages, read_pages-all}
use nightfrost.Checks.Sample.{thirty_two, empty_store}
use nightfrost.Checks.Postcards.{cells}
use nightfrost.Checks.Paging.{toy, secret, all_bytes_sound}

abbrev two_txs : BlockRecord
two_txs = record {
  hash = thirty_two 12;
  parent_hash = thirty_two 0;
  timestamp = 1700000000;
  protocol_version = 1000000;
  author = none;
  first_tx_id = 0;
  tx_count = 2;
  zswap_merkle_tree_root = [];
  ledger_state_root = none;
}

abbrev stored_tx : ℕ → TxRecord
stored_tx index = record {
  hash = thirty_two index;
  block_height = 0;
  index_in_block = index;
  variant = TransactionVariant.regular;
  result = TransactionResult.success;
  paid_fees = 1;
  estimated_fees = 1;
  identifiers = [];
  contract_action_ids = [];
  first_event_id = 0;
  event_count = 0;
  created_utxos = [];
  spent_utxos = [];
  raw = [];
}

abbrev small_store : function_fjall.Keyspace
small_store = function_fjall.commit empty_store (
    insert meta last_height_key (to_be 8 0)
    ∷ insert blocks (to_be 8 0) (cells.block.encode two_txs)
    ∷ insert txs (to_be 8 0) (cells.tx.encode (stored_tx 0))
    ∷ insert txs (to_be 8 1) (cells.tx.encode (stored_tx 1))
    ∷ [])

-- Heights of one digit, and bytes as their own hexadecimal digits.
abbrev one_digit : Bytes → Option ℕ
one_digit (d ∷ []) = some (d - 48)
one_digit _ = none

abbrev plain_formats : Formats
plain_formats = record { parse_u64 = one_digit; hex_encode = λ bs. bs; hex_decode = some }

abbrev tip_anchor : TipAnchor
tip_anchor = record { height = 0; hash = thirty_two 12 }

resolved :
    resolve_block plain_formats function_fjall cells toy secret small_store (codes "0")
    ≡ ok (0, two_txs)
unfolding resolve_block resolve_height block decoded latest apply_write same_key tag bytes_eq to_be
resolved = refl

found_tip : current_tip function_fjall cells toy secret small_store ≡ ok (some tip_anchor)
unfolding current_tip last_indexed_height meta_u64 block decoded latest apply_write same_key tag
    bytes_eq to_be read_be from_be_acc
found_tip = refl

anchored : validate_anchor function_fjall cells toy secret small_store tip_anchor ≡ ok tt
unfolding validate_anchor block decoded latest apply_write same_key tag bytes_eq to_be
anchored = refl

found_txs :
    (i : ℕ)
    → i < 2
    → indexed_hash plain_formats function_fjall cells toy secret small_store two_txs i
      ≡ ok (i, thirty_two i)
unfolding indexed_hash tx decoded latest apply_write same_key tag bytes_eq to_be
found_txs zero h = refl
found_txs (suc zero) h = refl
found_txs (suc (suc i)) h = ground (arith, h)

known_hash : IsArray 32 (thirty_two 12)
known_hash = record { size = refl; bytes = all_bytes_sound (thirty_two 12) refl }

read_pages-all_example :
    read_pages plain_formats function_fjall cells toy secret
      (λ j. small_store)
      (codes "0")
      desc
      1
      3
      0
      none
    ≡ ok (some (map thirty_two (ordered desc 2)))
read_pages-all_example =
    read_pages-all plain_formats function_fjall cells toy secret (λ j. small_store) (codes "0") desc
      1 0 two_txs tip_anchor thirty_two (λ j. resolved) (λ j i. found_txs i) found_tip
      (λ j. anchored) (omega arith) known_hash (omega arith) (omega arith) (omega arith)
      (λ bs. omega arith)
