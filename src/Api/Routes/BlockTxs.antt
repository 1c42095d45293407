-- ===== src/Api/Routes/BlockTxs.antt =====
-- `block_txs` of crates/nightfrost-api/src/routes.rs: the hashes of a block's transactions, page by
-- page.
use nightfrost.Prelude.{
  ℕ, zero, suc, ◌+◌, ◌%◌, ◌^◌, Bool, true, Option, none, some, List, [], ◌∷◌, ltb, length, take,
  last?, map, Result, ok, err, ◌>>=◌, if◌then◌else◌,
}
use nightfrost.Bytes.{Bytes, to_be, read_be, codes}
use nightfrost.Store.Fjall.{Fjall}
use nightfrost.Store.Records.{Postcard, BlockRecord}
use nightfrost.Store.Reads.{tx}
use nightfrost.Api.Pagination.{Pagination, Order, asc, desc}
use nightfrost.Api.Pagination.Cursor.{TipAnchor, Crypto}
use nightfrost.Api.Pagination.Scope.{scope}
use nightfrost.Api.Routes.Context.{
  ApiError, internal, invalid_position, missing_tx_record, map_err, page_context, next_cursor,
}
use nightfrost.Api.Routes.Blocks.{Formats, map_option, resolve_block}

pub record ApiResponse (T : Type 0) : Type 0 where
  pub results : T
  pub tip : Option TipAnchor
  pub next : Option Bytes

-- `start..start + n`, and `(0..n).rev()`
unfoldable pub span : ℕ → ℕ → List ℕ
span start zero = []
span start (suc n) = start ∷ span (start + 1) n

unfoldable pub down : ℕ → List ℕ
down zero = []
down (suc n) = n ∷ down n

unfoldable pub ordered : Order → ℕ → List ℕ
ordered asc n = span 0 n
ordered desc n = down n

-- `after.is_none_or(|after| …)`
unfoldable pub is_past : Order → Option ℕ → ℕ → Bool
is_past order none index = true
is_past asc (some after) index = ltb after index
is_past desc (some after) index = ltb index after

unfoldable pub filter {ℓ} : {A : Type ℓ} → (A → Bool) → List A → List A
filter test [] = []
filter test (x ∷ xs) = let rest = filter test xs in if test x then x ∷ rest else rest

-- `.map(…).collect::<Result<Vec<_>, _>>()`
unfoldable pub collect {ℓ κ} :
    {A : Type ℓ} {B : Type κ} → (A → Result ApiError B) → List A → Result ApiError (List B)
collect f [] = ok []
collect f (x ∷ xs) = do y ← f x; ys ← collect f xs; ok (y ∷ ys)

-- The index in a cursor's position: four bytes.
unfoldable pub read_position : Option Bytes → Result ApiError (Option ℕ)
read_position none = ok none
read_position (some bytes) = elim (read_be 4 bytes) [
  | none ↦ err invalid_position
  | some index ↦ ok (some index)
]

abbrev pub last_position : List (ℕ × Bytes) → Option Bytes
last_position rows = map_option (λ row. to_be 4 row.0) (last? rows)

unfoldable pub block_scope : ℕ → Order → Bytes
block_scope height order = scope (codes "block_txs" ∷ to_be 8 height ∷ []) order

module _ (X : Formats) (F : Fjall) (P : Postcard) (C : Crypto) (key : Bytes) (s : F.Keyspace) where
  unfoldable pub indexed_hash : BlockRecord → ℕ → Result ApiError (ℕ × Bytes)
  indexed_hash r index = do
    found ← map_err internal (tx F P s ((r.first_tx_id + index) % 2 ^ 64))
    elim found [ none ↦ err missing_tx_record | some t ↦ ok (index, X.hex_encode t.hash) ]

  unfoldable pub block_txs : Bytes → Pagination → Result ApiError (ApiResponse (List Bytes))
  block_txs id pagination = do
    (height, r) ← resolve_block X F P C key s id
    let query_scope = block_scope height pagination.order
    page ← page_context F P C key s pagination query_scope
    after ← read_position page.position
    rows ← collect (indexed_hash r) (
        take (pagination.count + 1)
          (filter (is_past pagination.order after) (ordered pagination.order r.tx_count)))
    let has_more = ltb pagination.count (length rows)
    let shown = take pagination.count rows
    cursor ← next_cursor F P C key s query_scope page.anchor (last_position shown) has_more
    ok record { results = map (λ row. row.1) shown; tip = page.anchor; next = cursor }
