-- ===== src/Api/Routes/Context.antt =====
-- The tip that a page is anchored to, in crates/nightfrost-api/src/routes.rs.
use nightfrost.Prelude.{
  Bool, true, false, Option, none, some, Result, ok, err, ◌>>=◌, if◌then◌else◌,
}
use nightfrost.Bytes.{Bytes, bytes_eq}
use nightfrost.Store.Error.{Error}
use nightfrost.Store.Fjall.{Fjall}
use nightfrost.Store.Records.{Postcard}
use nightfrost.Store.Reads.{last_indexed_height, block}
use nightfrost.Api.Pagination.{Pagination, BadRequest, validate}
use nightfrost.Api.Pagination.Cursor.{TipAnchor, CursorError, Crypto, encode, decode}

-- `ApiError`, by its status and its message.
pub data ApiError : Type 0 where
  internal : Error → ApiError
  tip_block_missing tip_unavailable different_history : ApiError
  bad_page : BadRequest → ApiError
  bad_cursor : CursorError → ApiError
  no_block_indexed block_not_found invalid_block_id : ApiError
  invalid_position missing_tx_record cursor_too_big : ApiError

-- `.map_err(…)`
abbrev pub map_err {ℓ κ ι} :
    {E : Type ℓ} {D : Type κ} {A : Type ι} → (E → D) → Result E A → Result D A
map_err f (ok a) = ok a
map_err f (err e) = err (f e)

pub record PageContext : Type 0 where
  pub anchor : Option TipAnchor
  pub position : Option Bytes

-- `ApiState`: the store and the key of the cursors.
module _ (F : Fjall) (P : Postcard) (C : Crypto) (key : Bytes) (s : F.Keyspace) where
  unfoldable pub current_tip : Result ApiError (Option TipAnchor)
  current_tip = do
    indexed ← map_err internal (last_indexed_height F P s)
    elim indexed [
      | none ↦ ok none
      | some height ↦ do
        found ← map_err internal (block F P s height)
        elim found [
          | none ↦ err tip_block_missing
          | some record_at_tip ↦ ok (some record { height = height; hash = record_at_tip.hash })
        ]
    ]

  unfoldable pub validate_anchor : TipAnchor → Result ApiError (Unit {0})
  validate_anchor anchor = do
    found ← map_err internal (block F P s anchor.height)
    elim found [
      | none ↦ err tip_unavailable
      | some record_at_tip ↦
          (if bytes_eq record_at_tip.hash anchor.hash then ok tt else err different_history)
    ]

  unfoldable pub page_context : Pagination → Bytes → Result ApiError PageContext
  page_context pagination scope = do
    _ ← map_err bad_page (validate pagination)
    elim pagination.cursor [
      | none ↦ do tip ← current_tip; ok record { anchor = tip; position = none }
      | some cursor ↦ do
        decoded ← map_err bad_cursor (decode C key cursor scope)
        _ ← validate_anchor decoded.anchor
        ok record { anchor = some decoded.anchor; position = some decoded.position }
    ]

  -- An error where the position is too long for a cursor, which panics.
  unfoldable pub next_cursor :
      Bytes → Option TipAnchor → Option Bytes → Bool → Result ApiError (Option Bytes)
  next_cursor scope anchor position false = ok none
  next_cursor scope none position true = ok none
  next_cursor scope (some anchor) none true = ok none
  next_cursor scope (some anchor) (some position) true = elim (encode C key scope anchor position) [
    | none ↦ err cursor_too_big
    | some cursor ↦ ok (some cursor)
  ]
