-- ===== src/Bytes/BigEndian.antt =====
-- Reading back a big-endian integer.
use native.Mathlib.Nat.{
  div-add-mod, mod-eq_of_lt, mul-add-mod_self_left, one-le-pow, pow-suc, mod-lt, add-zero,
  mul-add-div_right, div-eq_of_lt,
}
use nightfrost.Prelude.{
  ℕ, zero, suc, ◌+◌, ◌*◌, ◌/◌, ◌%◌, ◌^◌, ◌<◌, ◌≡◌, refl, ap, sym, ◌∙◌, some, arith, length, All, [],
  ◌∷◌,
}
use nightfrost.Bytes.{Bytes, IsByte, IsArray, to_be, from_be_acc, from_be, read_be}

pub length-to_be : (w n : ℕ) → length (to_be w n) ≡ w
unfolding to_be
length-to_be zero n = refl
length-to_be (suc w) n = ap suc (length-to_be w n)

bytes-to_be : (w n : ℕ) → All IsByte (to_be w n)
unfolding to_be
bytes-to_be zero n = tt
bytes-to_be (suc w) n = (omega arith, bytes-to_be w n)

pub to_be-IsArray : (w n : ℕ) → IsArray w (to_be w n)
to_be-IsArray w n = record { size = length-to_be w n; bytes = bytes-to_be w n }

pub pow_pos : (w : ℕ) → 0 < 256 ^ w
pow_pos w = one-le-pow w 256 (omega arith)

digit_below : (p d r : ℕ) → d < 256 → r < p → p * d + r < p * 256
digit_below p d r hd hr = grind arith

regroup : (n p : ℕ) → n ≡ p * 256 * (n / p / 256) + (p * (n / p % 256) + n % p)
regroup n p = omega (arith, div-add-mod n p, ap (λ (t : ℕ). p * t) (div-add-mod (n / p) 256))

-- The residue of one more digit: the digit, and the residue below it.
pub mod-digit : (n p : ℕ) → 0 < p → n % (p * 256) ≡ p * (n / p % 256) + n % p
mod-digit n p h =
    ap (λ t. t % (p * 256)) (regroup n p)
    ∙ mul-add-mod_self_left (p * 256) (n / p / 256) _
    ∙ mod-eq_of_lt (digit_below p (n / p % 256) (n % p) (omega arith) (mod-lt n h))

pub mod-pow_suc : (n w : ℕ) → n % 256 ^ suc w ≡ 256 ^ w * (n / 256 ^ w % 256) + n % 256 ^ w
mod-pow_suc n w = rw pow-suc (mod-digit n (256 ^ w) (pow_pos w))

from_be_acc-to_be : (w acc n : ℕ) → from_be_acc acc (to_be w n) ≡ acc * 256 ^ w + n % 256 ^ w
unfolding to_be from_be_acc
from_be_acc-to_be zero acc n = omega arith
from_be_acc-to_be (suc w) acc n =
    from_be_acc-to_be w (acc * 256 + n / 256 ^ w % 256) n
    ∙ rw (mod-pow_suc n w, pow-suc) (omega arith)

pub from_be-to_be : (w n : ℕ) → n < 256 ^ w → from_be (to_be w n) ≡ n
from_be-to_be w n h = from_be_acc-to_be w 0 n ∙ rw (mod-eq_of_lt h) (omega arith)

pub read_be-to_be : (w n : ℕ) → n < 256 ^ w → read_be w (to_be w n) ≡ some n
unfolding read_be
read_be-to_be w n h = ground (arith, length-to_be w n, from_be-to_be w n h)

pub to_be-injective : (w a b : ℕ) → a < 256 ^ w → b < 256 ^ w → to_be w a ≡ to_be w b → a ≡ b
to_be-injective w a b ha hb e = sym (from_be-to_be w a ha) ∙ ap from_be e ∙ from_be-to_be w b hb

-- The number that a string of bytes continues, and the rest, which the string's length bounds.
acc_split :
    (acc : ℕ) (bs : Bytes)
    → All IsByte bs
    → (r : ℕ) × (from_be_acc acc bs ≡ acc * 256 ^ length bs + r) × (r < 256 ^ length bs)
unfolding from_be_acc
acc_split acc [] h = (0, omega arith, omega arith)
acc_split acc (b ∷ bs) h =
    let (r, e, small) = acc_split (acc * 256 + b) bs h.1 in
    (
      256 ^ length bs * b + r,
      e ∙ rw pow-suc (omega arith),
      rw pow-suc (digit_below (256 ^ length bs) b r h.0 small),
    )

acc_digit : (acc : ℕ) (bs : Bytes) → All IsByte bs → from_be_acc acc bs / 256 ^ length bs ≡ acc
acc_digit acc bs h =
    let (r, e, small) = acc_split acc bs h in
    ap (λ n. n / 256 ^ length bs) e
    ∙ mul-add-div_right (pow_pos (length bs)) acc r
    ∙ ap (λ q. acc + q) (div-eq_of_lt small)
    ∙ add-zero acc

to_be-from_be_acc :
    (acc : ℕ) (bs : Bytes) → All IsByte bs → to_be (length bs) (from_be_acc acc bs) ≡ bs
unfolding to_be from_be_acc
to_be-from_be_acc acc [] h = refl
to_be-from_be_acc acc (b ∷ bs) h =
    let digit : (acc * 256 + b) % 256 ≡ b = omega (arith, h.0) in
    rw (acc_digit (acc * 256 + b) bs h.1, digit, to_be-from_be_acc (acc * 256 + b) bs h.1)

-- A byte string is the big-endian form of its value, at its length.
pub to_be-from_be : (bs : Bytes) → All IsByte bs → to_be (length bs) (from_be bs) ≡ bs
to_be-from_be bs h = to_be-from_be_acc 0 bs h

pub from_be_below : (bs : Bytes) → All IsByte bs → from_be bs < 256 ^ length bs
from_be_below bs h = let (r, e, small) = acc_split 0 bs h in omega (arith, e, small)
