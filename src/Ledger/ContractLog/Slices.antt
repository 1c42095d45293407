-- ===== src/Ledger/ContractLog/Slices.antt =====
-- The field readers on concatenations: a field is read where it was written.
use native.Mathlib.Nat.{zero-add, pow-suc}
use nightfrost.Prelude.{
  ℕ, zero, suc, ◌+◌, ◌*◌, ◌-◌, ◌/◌, ◌^◌, ◌≤◌, ◌<◌, ◌≡◌, refl, ap, ◌∙◌, some, [], ◌∷◌, ◌++◌, ◌==◌,
  length, length-append, take-append_of_length, drop-append_past, arith, Bool-cases, inl, inr,
}
use nightfrost.Bytes.{Bytes}
use nightfrost.Ledger.ContractLog.Fields.{
  byte_at, from_le, take_bytes, zeros, cell, extract_flat_bytes,
}
use nightfrost.Ledger.ContractLog.Wire.{to_le, strip_zeros, cons_stripped}

pub length-zeros : (n : ℕ) → length (zeros n) ≡ n
unfolding zeros
length-zeros zero = refl
length-zeros (suc n) = ap suc (length-zeros n)

pub length-to_le : (w n : ℕ) → length (to_le w n) ≡ w
unfolding to_le
length-to_le zero n = refl
length-to_le (suc w) n = ap suc (length-to_le w (n / 256))

pub from_le-to_le : (w n : ℕ) → n < 256 ^ w → from_le (to_le w n) ≡ n
unfolding from_le to_le
from_le-to_le zero n h = omega (arith, h)
from_le-to_le (suc w) n h =
    let small : n < 256 ^ w * 256 = rw pow-suc at h in
    omega (arith, from_le-to_le w (n / 256) (omega (arith, small)))

byte_at-append_past :
    (n i : ℕ) (a rest : Bytes) → length a ≡ n → byte_at (a ++ rest) (n + i) ≡ byte_at rest i
byte_at-append_past zero i [] rest e = ap (byte_at rest) (zero-add i)
byte_at-append_past (suc n) i [] rest e = ground arith
byte_at-append_past zero i (x ∷ a) rest e = ground arith
byte_at-append_past (suc n) i (x ∷ a) rest e =
    let more : suc n + i ≡ suc (n + i) = omega arith in
    ap (byte_at (x ∷ (a ++ rest))) more ∙ byte_at-append_past n i a rest (omega (arith, e))

module _ (a rest : Bytes) (n : ℕ) (size : length a ≡ n) where
  pub take_bytes-past : (i m : ℕ) → take_bytes (a ++ rest) (n + i) m ≡ take_bytes rest i m
  unfolding take_bytes
  take_bytes-past i m =
      rw (drop-append_past n i a rest size) (ground (arith, size, length-append a rest))

  pub byte_at-past : (i : ℕ) → byte_at (a ++ rest) (n + i) ≡ byte_at rest i
  byte_at-past i = byte_at-append_past n i a rest size

  pub take_bytes-here : take_bytes (a ++ rest) 0 n ≡ some a
  unfolding take_bytes
  take_bytes-here =
      rw (take-append_of_length n a rest size) (ground (arith, size, length-append a rest))

-- The zeros that were stripped are put back.
IsPadded : Bytes → Bytes → Type 0
IsPadded s bs = (length s ≤ length bs) × (s ++ zeros (length bs - length s) ≡ bs)

IsPadded-cons : (b : ℕ) (s bs : Bytes) → IsPadded s bs → IsPadded (cons_stripped b s) (b ∷ bs)
unfolding zeros IsPadded
IsPadded-cons b [] bs (le, e) = elim (Bool-cases (b == 0)) [
  | inl zero_byte ↦ ground (arith, zero_byte, e)
  | inr nonzero ↦ ground (arith, nonzero, e)
]
IsPadded-cons b (c ∷ cs) bs (le, e) =
    let one_more : suc (length bs) - suc (length (c ∷ cs)) ≡ length bs - length (c ∷ cs) =
      omega arith in
    (omega (arith, le), ap (λ n. b ∷ c ∷ cs ++ zeros n) one_more ∙ ap (λ xs. b ∷ xs) e)

strip_zeros-IsPadded : (bs : Bytes) → IsPadded (strip_zeros bs) bs
unfolding strip_zeros zeros IsPadded
strip_zeros-IsPadded [] = (omega arith, refl)
strip_zeros-IsPadded (b ∷ bs) = IsPadded-cons b (strip_zeros bs) bs (strip_zeros-IsPadded bs)

pub extract_flat_bytes-strip :
    (bs : Bytes) (min max : ℕ)
    → length bs ≡ max
    → min ≤ length (strip_zeros bs)
    → extract_flat_bytes (cell (strip_zeros bs ∷ [])) min max ≡ some bs
unfolding extract_flat_bytes IsPadded
extract_flat_bytes-strip bs min max size enough =
    let (short, padded) = strip_zeros-IsPadded bs in ground (arith, size, short, enough, padded)
