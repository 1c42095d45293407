-- ===== src/Checks/Wire.antt =====
-- Self-delimiting encodings for the tests: each value is written in front of a rest, and read back
-- with that rest.
use nightfrost.Prelude.{
  ℕ, zero, suc, ◌≡◌, refl, Bool, true, false, Option, none, some, List, [], ◌∷◌, ◌⊎◌, inl, inr,
  length,
}
use nightfrost.Bytes.{Bytes}
use nightfrost.Store.Records.{Codec}

pub record Wire (A : Type 0) : Type 0 where
  pub write : A → Bytes → Bytes
  pub read : Bytes → Option (A × Bytes)
  pub read-write : (a : A) (rest : Bytes) → read (write a rest) ≡ some (a, rest)

-- Reads on after a value, or fails with it.
abbrev pub and_then :
    {A B : Type 0} → Option (A × Bytes) → (A → Bytes → Option (B × Bytes)) → Option (B × Bytes)
and_then none f = none
and_then (some (a, rest)) f = f a rest

abbrev pub read_cell : Bytes → Option (ℕ × Bytes)
read_cell [] = none
read_cell (n ∷ rest) = some (n, rest)

abbrev pub nat_wire : Wire ℕ
nat_wire = record { write = λ n rest. n ∷ rest; read = read_cell; read-write = λ n rest. refl }

abbrev pub unit_wire : Wire (Unit {0})
unit_wire = record {
  write = λ _ rest. rest;
  read = λ rest. some (tt, rest);
  read-write = λ _ rest. refl;
}

module _ {A B : Type 0} (V : Wire A) (W : Wire B) where
  abbrev pub read_pair : Bytes → Option ((A × B) × Bytes)
  read_pair bs =
      and_then (V.read bs) λ a after_a. and_then (W.read after_a) λ b rest. some ((a, b), rest)

  pub read-write_pair :
      (a : A) (b : B) (rest : Bytes) → read_pair (V.write a (W.write b rest)) ≡ some ((a, b), rest)
  read-write_pair a b rest = rw (V.read-write a (W.write b rest), W.read-write b rest)

  abbrev pub pair_wire : Wire (A × B)
  pair_wire = record {
    write = λ p rest. V.write p.0 (W.write p.1 rest);
    read = read_pair;
    read-write = λ p rest. read-write_pair p.0 p.1 rest;
  }

  abbrev pub write_sum : A ⊎ B → Bytes → Bytes
  write_sum (inl a) rest = 0 ∷ V.write a rest
  write_sum (inr b) rest = 1 ∷ W.write b rest

  abbrev pub read_sum : Bytes → Option ((A ⊎ B) × Bytes)
  read_sum [] = none
  read_sum (zero ∷ bs) = and_then (V.read bs) λ a rest. some (inl a, rest)
  read_sum (suc _ ∷ bs) = and_then (W.read bs) λ b rest. some (inr b, rest)

  pub read-write_sum : (x : A ⊎ B) (rest : Bytes) → read_sum (write_sum x rest) ≡ some (x, rest)
  read-write_sum (inl a) rest = rw (V.read-write a rest)
  read-write_sum (inr b) rest = rw (W.read-write b rest)

  abbrev pub sum_wire : Wire (A ⊎ B)
  sum_wire = record { write = write_sum; read = read_sum; read-write = read-write_sum }

module _ {A B : Type 0} (V : Wire A) (to : B → A) (from : A → B)
    (from-to : (b : B) → from (to b) ≡ b) where
  abbrev pub read_as : Bytes → Option (B × Bytes)
  read_as bs = and_then (V.read bs) λ a rest. some (from a, rest)

  pub read-write_as : (b : B) (rest : Bytes) → read_as (V.write (to b) rest) ≡ some (b, rest)
  read-write_as b rest = rw (V.read-write (to b) rest, from-to b)

  -- A type with the values of another one.
  abbrev pub as_wire : Wire B
  as_wire = record {
    write = λ b rest. V.write (to b) rest;
    read = read_as;
    read-write = read-write_as;
  }

module _ {A : Type 0} (V : Wire A) where
  abbrev pub write_items : List A → Bytes → Bytes
  write_items [] rest = rest
  write_items (x ∷ xs) rest = V.write x (write_items xs rest)

  abbrev pub read_items : ℕ → Bytes → Option (List A × Bytes)
  read_items zero bs = some ([], bs)
  read_items (suc n) bs =
      and_then (V.read bs)
        λ x after_x. and_then (read_items n after_x) λ xs rest. some (x ∷ xs, rest)

  pub read-write_items :
      (xs : List A) (rest : Bytes) → read_items (length xs) (write_items xs rest) ≡ some (xs, rest)
  read-write_items [] rest = refl
  read-write_items (x ∷ xs) rest =
      rw (V.read-write x (write_items xs rest), read-write_items xs rest)

  abbrev pub read_list : Bytes → Option (List A × Bytes)
  read_list [] = none
  read_list (n ∷ bs) = read_items n bs

  abbrev pub list_wire : Wire (List A)
  list_wire = record {
    write = λ xs rest. length xs ∷ write_items xs rest;
    read = read_list;
    read-write = read-write_items;
  }

  abbrev pub decode_all : Bytes → Option A
  decode_all bs = elim (V.read bs) [ some (a, rest) ↦ some a | none ↦ none ]

  abbrev pub codec : Codec A
  codec = record {
    encode = λ a. V.write a [];
    decode = decode_all;
    decode-encode = λ a. rw (decode_all, V.read-write a []);
  }

abbrev pub bytes_wire : Wire Bytes
bytes_wire = list_wire nat_wire

abbrev pub option_to : {A : Type 0} → Option A → Unit {0} ⊎ A
option_to none = inl tt
option_to (some a) = inr a

abbrev pub option_from : {A : Type 0} → Unit {0} ⊎ A → Option A
option_from (inl _) = none
option_from (inr a) = some a

pub option_from-to : {A : Type 0} (o : Option A) → option_from (option_to o) ≡ o
option_from-to none = refl
option_from-to (some a) = refl

abbrev pub option_wire : {A : Type 0} → Wire A → Wire (Option A)
option_wire V = as_wire (sum_wire unit_wire V) option_to option_from option_from-to

abbrev pub bool_to : Bool → Unit {0} ⊎ Unit {0}
bool_to false = inl tt
bool_to true = inr tt

abbrev pub bool_from : Unit {0} ⊎ Unit {0} → Bool
bool_from (inl _) = false
bool_from (inr _) = true

pub bool_from-to : (b : Bool) → bool_from (bool_to b) ≡ b
bool_from-to false = refl
bool_from-to true = refl

abbrev pub bool_wire : Wire Bool
bool_wire = as_wire (sum_wire unit_wire unit_wire) bool_to bool_from bool_from-to
