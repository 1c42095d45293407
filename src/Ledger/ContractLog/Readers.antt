-- ===== src/Ledger/ContractLog/Readers.antt =====
-- The readers of optional fields, amounts and addresses on concatenations.
use nightfrost.Prelude.{
  ℕ, suc, ◌+◌, ◌≡◌, refl, ap, ◌∙◌, Option, none, some, [], ◌∷◌, ◌++◌, length, length-append,
  append_assoc, arith,
}
use nightfrost.Bytes.{Bytes}
use nightfrost.Domain.{AddressOrContract, user, contract}
use nightfrost.Ledger.ContractLog.Fields.{
  to_decimal, take_bytes, take_uint_128_le, take_maybe_bytes, take_maybe_uint_128_le,
  take_either_address, zeros,
}
use nightfrost.Ledger.ContractLog.Wire.{
  uint_128, maybe_bytes, maybe_uint_128, either_bytes, IsSized, IsU128, IsMaybeU128, IsAddress,
  option_decimal,
}
use nightfrost.Ledger.ContractLog.Slices.{
  length-zeros, length-to_le, from_le-to_le, take_bytes-past, byte_at-past, take_bytes-here,
}

module _ (a rest : Bytes) (n : ℕ) (size : length a ≡ n) where
  take_bytes-past_suc : (i m : ℕ) → take_bytes (a ++ rest) (n + i + 1) m ≡ take_bytes rest (i + 1) m
  take_bytes-past_suc i m =
      let reassociated : n + i + 1 ≡ n + (i + 1) = omega arith in
      ap (λ k. take_bytes (a ++ rest) k m) reassociated ∙ take_bytes-past a rest n size (i + 1) m

  pub take_maybe_bytes-past :
      (i m : ℕ) → take_maybe_bytes (a ++ rest) (n + i) m ≡ take_maybe_bytes rest i m
  unfolding take_maybe_bytes
  take_maybe_bytes-past i m = rw (byte_at-past a rest n size i, take_bytes-past_suc i m)

  pub take_uint_128_le-past :
      (i : ℕ) → take_uint_128_le (a ++ rest) (n + i) ≡ take_uint_128_le rest i
  unfolding take_uint_128_le
  take_uint_128_le-past i = rw (take_bytes-past a rest n size i 16)

  pub take_maybe_uint_128_le-past :
      (i : ℕ) → take_maybe_uint_128_le (a ++ rest) (n + i) ≡ take_maybe_uint_128_le rest i
  unfolding take_maybe_uint_128_le take_uint_128_le
  take_maybe_uint_128_le-past i = rw (byte_at-past a rest n size i, take_bytes-past_suc i 16)

pub take_maybe_bytes-here :
    (n : ℕ) (v : Option Bytes) (rest : Bytes)
    → IsSized n v
    → take_maybe_bytes (maybe_bytes n v ++ rest) 0 n ≡ v
unfolding take_maybe_bytes
take_maybe_bytes-here n none rest sized = refl
take_maybe_bytes-here n (some v) rest sized =
    take_bytes-past (1 ∷ []) (v ++ rest) 1 refl 0 n ∙ take_bytes-here v rest n sized

pub take_uint_128_le-here :
    (n : ℕ) (rest : Bytes)
    → IsU128 n
    → take_uint_128_le (uint_128 n ++ rest) 0 ≡ some (to_decimal n)
unfolding take_uint_128_le
take_uint_128_le-here n rest small =
    rw (take_bytes-here (uint_128 n) rest 16 (length-to_le 16 n))
      (ap (λ k. some (to_decimal k)) (from_le-to_le 16 n small))

pub take_maybe_uint_128_le-here :
    (n : Option ℕ) (rest : Bytes)
    → IsMaybeU128 n
    → take_maybe_uint_128_le (maybe_uint_128 n ++ rest) 0 ≡ option_decimal n
unfolding take_maybe_uint_128_le
take_maybe_uint_128_le-here none rest small = refl
take_maybe_uint_128_le-here (some n) rest small =
    take_uint_128_le-past (1 ∷ []) (uint_128 n ++ rest) 1 refl 0
    ∙ take_uint_128_le-here n rest small

pub take_either_address-here :
    (a : AddressOrContract) (rest : Bytes)
    → IsAddress a
    → take_either_address (either_bytes a ++ rest) 0 ≡ some a
unfolding take_either_address
take_either_address-here (user key) rest sized = rw (append_assoc key (zeros 32) rest) (
    rw (
      take_bytes-past (1 ∷ []) (key ++ (zeros 32 ++ rest)) 1 refl 0 32,
      take_bytes-here key (zeros 32 ++ rest) 32 sized,
    ))
take_either_address-here (contract address) rest sized = rw (append_assoc (zeros 32) address rest) (
    rw (
      take_bytes-past (0 ∷ []) (zeros 32 ++ (address ++ rest)) 1 refl 32 32,
      take_bytes-past (zeros 32) (address ++ rest) 32 (length-zeros 32) 0 32,
      take_bytes-here address rest 32 sized,
    ))

pub length-maybe_bytes : (n : ℕ) (v : Option Bytes) → IsSized n v → length (maybe_bytes n v) ≡ suc n
length-maybe_bytes n none sized = ap suc (length-zeros n)
length-maybe_bytes n (some v) sized = ap suc sized

pub length-maybe_uint_128 : (n : Option ℕ) → length (maybe_uint_128 n) ≡ 17
length-maybe_uint_128 none = ap suc (length-zeros 16)
length-maybe_uint_128 (some n) = ap suc (length-to_le 16 n)

pub length-either_bytes : (a : AddressOrContract) → IsAddress a → length (either_bytes a) ≡ 65
length-either_bytes (user key) sized =
    omega (arith, length-append key (zeros 32), length-zeros 32, sized)
length-either_bytes (contract address) sized =
    omega (arith, length-append (zeros 32) address, length-zeros 32, sized)
