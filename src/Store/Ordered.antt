-- ===== src/Store/Ordered.antt =====
-- A partition in key order: `iter` and `range` of the vendored fjall, which yield the entries that
-- `get` finds, each key once, in the order of their bytes.
use Prim.Native.Nat.Ordering.{lt}
use nightfrost.Prelude.{
  ◌≡◌, Bool, true, false, Option, none, some, List, [], ◌∷◌, All, if◌then◌else◌,
}
use nightfrost.Bytes.{Bytes, bytes_eq}
use nightfrost.Bytes.Order.{lex}
use nightfrost.Store.Fjall.{Fjall, Partition}

abbrev pub Entry : Type 0
Entry = Bytes × Bytes

abbrev pub find : Bytes → List Entry → Option Bytes
find k [] = none
find k ((j, v) ∷ es) = if bytes_eq k j then some v else find k es

abbrev pub IsAfter : Bytes → Entry → Type 0
IsAfter k (j, v) = lex k j ≡ lt

abbrev pub IsSorted : List Entry → Type 0
IsSorted [] = Unit {0}
IsSorted ((k, v) ∷ es) = All (IsAfter k) es × IsSorted es

pub record Ordered (F : Fjall) : Type 0 where
  pub entries : F.Keyspace → Partition → List Entry
  pub entries-IsSorted : (s : F.Keyspace) (p : Partition) → IsSorted (entries s p)
  pub find-entries :
      (s : F.Keyspace) (p : Partition) (k : Bytes) → find k (entries s p) ≡ F.get s p k

-- `range((lower, Unbounded))` of a partition's entries.
abbrev pub is_after : Bytes → Bytes → Bool
is_after k j = elim (lex k j) [ lt ↦ true | _ ↦ false ]

pub data Lower : Type 0 where
  excluded : Bytes → Lower
  unbounded : Lower

unfoldable pub range : Lower → List Entry → List Entry
range unbounded es = es
range (excluded k) [] = []
range (excluded k) ((j, v) ∷ es) =
    let rest = range (excluded k) es in if is_after k j then (j, v) ∷ rest else rest
