-- ===== src/Api/Pagination/Scope.antt =====
-- The scope of a cursor, of crates/nightfrost-api/src/pagination.rs.
use nightfrost.Prelude.{
  ℕ, ◌%◌, ◌^◌, ◌<◌, ◌≡◌, refl, List, [], ◌∷◌, ◌++◌, arith, All, length, sym, ◌∙◌, ap, length-append,
  ◌≤◌,
}
use nightfrost.Bytes.{Bytes, to_be}
use nightfrost.Bytes.BigEndian.{length-to_be, to_be-injective}
use nightfrost.Store.Keys.{append-injective}
use nightfrost.Api.Pagination.{Order, asc, desc}

unfoldable pub order_byte : Order → ℕ
order_byte asc = 0
order_byte desc = 1

-- Each part behind its length, which `as u32` cuts to 32 bits.
scope_parts : List Bytes → Bytes
scope_parts [] = []
scope_parts (part ∷ parts) = to_be 4 (length part % 2 ^ 32) ++ (part ++ scope_parts parts)

pub scope : List Bytes → Order → Bytes
unfolding order_byte scope_parts
scope parts order = order_byte order ∷ scope_parts parts

-- Parts that a u32 can measure.
abbrev pub AreMeasured : List Bytes → Type 0
AreMeasured parts = All (λ part. length part < 2 ^ 32) parts

scope_parts-length : (part : Bytes) (parts : List Bytes) → 4 ≤ length (scope_parts (part ∷ parts))
unfolding scope_parts
scope_parts-length part parts = omega (
  arith,
  length-append (to_be 4 (length part % 2 ^ 32)) (part ++ scope_parts parts),
  length-to_be 4 (length part % 2 ^ 32),
)

scope_parts-injective :
    (xs ys : List Bytes)
    → AreMeasured xs
    → AreMeasured ys
    → scope_parts xs ≡ scope_parts ys
    → xs ≡ ys
unfolding scope_parts
scope_parts-injective [] [] hx hy e = refl
scope_parts-injective [] (y ∷ ys) hx hy e =
    ground (arith, ap (λ (bs : Bytes). length bs) e, scope_parts-length y ys)
scope_parts-injective (x ∷ xs) [] hx hy e =
    ground (arith, ap (λ (bs : Bytes). length bs) e, scope_parts-length x xs)
scope_parts-injective (x ∷ xs) (y ∷ ys) hx hy e =
    let (lengths, rest) =
      append-injective (to_be 4 (length x % 2 ^ 32)) _ (to_be 4 (length y % 2 ^ 32)) _
        (length-to_be 4 _ ∙ sym (length-to_be 4 _)) e in
    let same =
      to_be-injective 4 (length x % 2 ^ 32) (length y % 2 ^ 32) (omega arith) (omega arith)
        lengths in
    let (parts, others) = append-injective x _ y _ (omega (arith, same, hx.0, hy.0)) rest in
    rw (parts, scope_parts-injective xs ys hx.1 hy.1 others)

order_byte-injective : (a b : Order) → order_byte a ≡ order_byte b → a ≡ b
unfolding order_byte
order_byte-injective asc asc e = refl
order_byte-injective asc desc e = ground arith
order_byte-injective desc asc e = ground arith
order_byte-injective desc desc e = refl

-- Queries of parts that are each shorter than 2^32 bytes have different scopes where they differ:
-- the order and all parts can be told from the scope.
pub scope-injective :
    (xs ys : List Bytes) (a b : Order)
    → AreMeasured xs
    → AreMeasured ys
    → scope xs a ≡ scope ys b
    → (xs ≡ ys) × (a ≡ b)
unfolding scope
scope-injective xs ys a b hx hy e =
    let (orders, parts) = append-injective (order_byte a ∷ []) _ (order_byte b ∷ []) _ refl e in
    (scope_parts-injective xs ys hx hy parts, order_byte-injective a b (ground (arith, orders)))
