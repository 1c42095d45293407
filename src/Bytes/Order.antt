-- ===== src/Bytes/Order.antt =====
-- The lexicographic order of byte strings, in which fjall keeps the keys of a partition.
use Prim.Native.Nat.{compare, Ordering}
use Prim.Native.Nat.Ordering.{lt, eq, gt}
use native.Mathlib.Nat.{mod-eq_of_lt, mod-lt}
use nightfrost.Prelude.{
  ℕ, zero, suc, ◌+◌, ◌*◌, ◌/◌, ◌%◌, ◌^◌, ◌<◌, ◌≡◌, refl, ◌∙◌, [], ◌∷◌, ◌++◌, arith,
}
use nightfrost.Bytes.{Bytes, to_be}
use nightfrost.Bytes.BigEndian.{pow_pos, mod-pow_suc}

-- `a.cmp(&b)` on byte slices: a proper prefix is smaller.
unfoldable pub lex : Bytes → Bytes → Ordering
lex [] [] = eq
lex [] (y ∷ ys) = lt
lex (x ∷ xs) [] = gt
lex (x ∷ xs) (y ∷ ys) = elim (compare x y) [ lt ↦ lt | gt ↦ gt | eq ↦ lex xs ys ]

pub lex_refl : (a : Bytes) → lex a a ≡ eq
unfolding lex
lex_refl [] = refl
lex_refl (x ∷ xs) = ground (arith, lex_refl xs)

pub eq_of_lex : (a b : Bytes) → lex a b ≡ eq → a ≡ b
unfolding lex
eq_of_lex [] [] h = refl
eq_of_lex [] (y ∷ ys) h = cc
eq_of_lex (x ∷ xs) [] h = cc
eq_of_lex (x ∷ xs) (y ∷ ys) h = ground (arith, eq_of_lex xs ys)

pub lex_trans : (a b c : Bytes) → lex a b ≡ lt → lex b c ≡ lt → lex a c ≡ lt
unfolding lex
lex_trans [] [] c h k = cc
lex_trans [] (y ∷ ys) [] h k = cc
lex_trans [] (y ∷ ys) (z ∷ zs) h k = refl
lex_trans (x ∷ xs) [] c h k = cc
lex_trans (x ∷ xs) (y ∷ ys) [] h k = cc
lex_trans (x ∷ xs) (y ∷ ys) (z ∷ zs) h k = ground (arith, lex_trans xs ys zs)

-- The other way round.
pub lex_flip : (a b : Bytes) → lex a b ≡ gt → lex b a ≡ lt
unfolding lex
lex_flip [] [] h = cc
lex_flip [] (y ∷ ys) h = cc
lex_flip (x ∷ xs) [] h = refl
lex_flip (x ∷ xs) (y ∷ ys) h = ground (arith, lex_flip xs ys)

-- A common front does not count.
pub lex-append : (p a b : Bytes) → lex (p ++ a) (p ++ b) ≡ lex a b
unfolding lex
lex-append [] a b = refl
lex-append (x ∷ p) a b = ground (arith, lex-append p a b)

compare_digit_lt : (p d e r s : ℕ) → r < p → d < e → p * d + r < p * e + s
compare_digit_lt p d e r s hr h = grind arith

compare-digit :
    (p d e r s : ℕ)
    → r < p
    → s < p
    → compare (p * d + r) (p * e + s) ≡ elim (compare d e) [ lt ↦ lt | gt ↦ gt | eq ↦ compare r s ]
compare-digit p d e r s hr hs =
    ground (arith, compare_digit_lt p d e r s hr, compare_digit_lt p e d s r hs)

lex-to_be_mod : (w a b : ℕ) → lex (to_be w a) (to_be w b) ≡ compare (a % 256 ^ w) (b % 256 ^ w)
unfolding lex to_be
lex-to_be_mod zero a b = ground arith
lex-to_be_mod (suc w) a b =
    rw (mod-pow_suc a w, mod-pow_suc b w)
      (ground (
        arith,
        lex-to_be_mod w a b,
        compare-digit (256 ^ w) (a / 256 ^ w % 256) (b / 256 ^ w % 256) (a % 256 ^ w) (b % 256 ^ w)
            (mod-lt a (pow_pos w)) (mod-lt b (pow_pos w)),
      ))

-- Fixed-width big-endian keys are in the order of their numbers.
pub lex-to_be : (w a b : ℕ) → a < 256 ^ w → b < 256 ^ w → lex (to_be w a) (to_be w b) ≡ compare a b
lex-to_be w a b ha hb = lex-to_be_mod w a b ∙ rw (mod-eq_of_lt ha, mod-eq_of_lt hb)
