-- ===== src/Bytes.antt =====
-- Byte strings, and the big-endian integers of the standard library
-- (`to_be_bytes`, `from_be_bytes`) that the store's keys and values are made of.
pub mod BigEndian
pub mod Order
use nightfrost.Prelude.{
  ℕ, zero, suc, ◌+◌, ◌*◌, ◌/◌, ◌%◌, ◌^◌, ◌<◌, ◌≡◌, refl, ◌↔◌, Bool, true, false, ◌&&◌, List, [],
  ◌∷◌, ◌++◌, arith, ◌==◌, length, All, Option, none, some,
}
use Prim.Native.Char.{code}
use Prim.Native.String.{String}

abbrev pub Bytes : Type 0
Bytes = List ℕ

abbrev pub IsByte : ℕ → Type 0
IsByte b = b < 256

-- A Rust `[u8; n]`.
pub record IsArray (n : ℕ) (bs : Bytes) : Type 0 where
  pub size : length bs ≡ n
  pub bytes : All IsByte bs

-- `n.to_be_bytes()` at `w` bytes; what stands above them is cut off.
unfoldable pub to_be : ℕ → ℕ → Bytes
to_be zero n = []
to_be (suc w) n = n / 256 ^ w % 256 ∷ to_be w n

-- The value of a big-endian string.
unfoldable pub from_be_acc : ℕ → Bytes → ℕ
from_be_acc acc [] = acc
from_be_acc acc (b ∷ bs) = from_be_acc (acc * 256 + b) bs

abbrev pub from_be : Bytes → ℕ
from_be bs = from_be_acc 0 bs

-- `bs.try_into()` to `[u8; w]`, then `from_be_bytes`.
unfoldable pub read_be : ℕ → Bytes → Option ℕ
read_be w bs = elim (length bs == w) [ true ↦ some (from_be bs) | false ↦ none ]

-- `==` on byte slices.
unfoldable pub bytes_eq : Bytes → Bytes → Bool
bytes_eq [] [] = true
bytes_eq (x ∷ xs) (y ∷ ys) = (x == y) && bytes_eq xs ys
bytes_eq _ _ = false

pub bytes_eq_refl : (a : Bytes) → bytes_eq a a ≡ true
unfolding bytes_eq
bytes_eq_refl [] = refl
bytes_eq_refl (x ∷ xs) = ground (arith, bytes_eq_refl xs)

pub bytes_eq→eq : (a b : Bytes) → bytes_eq a b ≡ true → a ≡ b
unfolding bytes_eq
bytes_eq→eq [] [] h = refl
bytes_eq→eq [] (y ∷ ys) h = cc
bytes_eq→eq (x ∷ xs) [] h = cc
bytes_eq→eq (x ∷ xs) (y ∷ ys) h = ground (arith, bytes_eq→eq xs ys)

pub bytes_eq_iff : (a b : Bytes) → (bytes_eq a b ≡ true) ↔ (a ≡ b)
bytes_eq_iff a b = (bytes_eq→eq a b, λ e. ground (arith, bytes_eq_refl a))

-- `str.as_bytes()` of an ASCII text.
abbrev pub codes : String → Bytes
codes String.[] = []
codes (String.◌∷◌ c s) = code c ∷ codes s
