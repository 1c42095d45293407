-- ===== src/Api/Pagination.antt =====
-- crates/nightfrost-api/src/pagination.rs: the query parameters of a page, and the cursors and key
-- ranges that a page is served from.
pub mod Cursor
pub mod Scope
pub mod PrefixEnd
pub mod RoundTrip
pub mod Authentic
use nightfrost.Prelude.{
  ℕ, ◌≤◌, ◌≡◌, ◌↔◌, Option, none, some, Bool, not, true, false, ◌&&◌, arith, leb, ltb, length,
  Result, ok, err, if◌then◌else◌,
}
use nightfrost.Bytes.{Bytes}

pub data Order : Type 0 where
  asc desc : Order

pub record Pagination : Type 0 where
  pub count : ℕ
  pub order : Order
  pub cursor : Option Bytes
  pub page : Option ℕ

abbrev pub default_pagination : Pagination
default_pagination = record { count = 100; order = asc; cursor = none; page = none }

-- The bad requests of this file, by their messages.
pub data BadRequest : Type 0 where
  count_out_of_range page_not_supported cursor_too_long : BadRequest

abbrev pub max_cursor_len : ℕ
max_cursor_len = 1024

is_some : {A : Type 0} → Option A → Bool
is_some none = false
is_some (some _) = true

is_some_and : {A : Type 0} → Option A → (A → Bool) → Bool
is_some_and none test = false
is_some_and (some a) test = test a

pub validate : Pagination → Result BadRequest (Unit {0})
unfolding is_some is_some_and
validate p =
    if not (leb 1 p.count && leb p.count 5000)
    then err count_out_of_range
    else if is_some p.page
    then err page_not_supported
    else if is_some_and p.cursor (λ cursor. ltb max_cursor_len (length cursor))
    then err cursor_too_long
    else ok tt

-- A cursor of at most 1024 bytes.
abbrev pub IsShort : Option Bytes → Type 0
IsShort none = Unit {0}
IsShort (some cursor) = length cursor ≤ max_cursor_len

-- A request passes exactly when it asks for 1 to 5000 items, names no page and has no cursor or
-- one of at most 1024 bytes.
pub validate_iff :
    (p : Pagination)
    → (validate p ≡ ok tt) ↔ ((1 ≤ p.count) × (p.count ≤ 5000) × (p.page ≡ none) × IsShort p.cursor)
unfolding validate is_some is_some_and
validate_iff p = ground arith
