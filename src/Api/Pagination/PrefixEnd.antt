-- ===== src/Api/Pagination/PrefixEnd.antt =====
-- `prefix_end` of crates/nightfrost-api/src/pagination.rs: the end of the range of keys that have a
-- prefix.
use Prim.Native.Nat.Ordering.{lt}
use nightfrost.Prelude.{
  ℕ, ◌+◌, ◌≡◌, ◌≢◌, ◌↔◌, refl, ap, Option, none, some, [], ◌∷◌, ◌++◌, Bool, true, false, ◌&&◌, ◌==◌,
  arith, All, if◌then◌else◌, Option-cases, Bool-cases, inl, inr,
}
use nightfrost.Bytes.{Bytes, IsByte}
use nightfrost.Bytes.Order.{lex}

unfoldable pub reverse : Bytes → Bytes
reverse [] = []
reverse (b ∷ bs) = reverse bs ++ b ∷ []

-- The loop, on the vector from its last byte on: 0xff is popped, any other byte is counted up.
unfoldable pub count_up : Bytes → Option Bytes
count_up [] = none
count_up (last ∷ rest) = if last == 255 then count_up rest else some ((last + 1) ∷ rest)

unfoldable pub prefix_end : Bytes → Option Bytes
unfolding count_up reverse
prefix_end bs = elim (count_up (reverse bs)) [ none ↦ none | some end ↦ some (reverse end) ]

-- `key.starts_with(front)`
abbrev pub starts_with : Bytes → Bytes → Bool
starts_with key [] = true
starts_with [] (b ∷ bs) = false
starts_with (k ∷ ks) (b ∷ bs) = (k == b) && starts_with ks bs

-- The loop at the first byte: it is reached when everything behind it is 0xff.
count_up-snoc :
    (ys : Bytes) (b : ℕ)
    → count_up (ys ++ b ∷ []) ≡ elim (count_up ys) [
      | some end ↦ some (end ++ b ∷ [])
      | none ↦ (if b == 255 then none else some ((b + 1) ∷ []))
    ]
unfolding count_up
count_up-snoc [] b = refl
count_up-snoc (y ∷ ys) b = elim (Option-cases (count_up ys)) [
  | inl gone ↦ ground (arith, gone, count_up-snoc ys b)
  | inr (end, there) ↦ ground (arith, there, count_up-snoc ys b)
]

reverse-snoc : (ys : Bytes) (b : ℕ) → reverse (ys ++ b ∷ []) ≡ b ∷ reverse ys
unfolding reverse
reverse-snoc [] b = refl
reverse-snoc (y ∷ ys) b = rw (reverse-snoc ys b)

prefix_end-nil : prefix_end [] ≡ none
unfolding prefix_end count_up reverse
prefix_end-nil = refl

-- The end, from the first byte on.
prefix_end-cons :
    (b : ℕ) (bs : Bytes)
    → prefix_end (b ∷ bs) ≡ elim (prefix_end bs) [
      | some end ↦ some (b ∷ end)
      | none ↦ (if b == 255 then none else some ((b + 1) ∷ []))
    ]
unfolding prefix_end reverse
prefix_end-cons b bs =
    rw (prefix_end, count_up-snoc (reverse bs) b)
      (elim (Option-cases (count_up (reverse bs))) [
        | inl gone ↦
            rw gone (elim (Bool-cases (b == 255)) [ inl top ↦ rw top | inr other ↦ rw other ])
        | inr (end, there) ↦ rw there (ap some (reverse-snoc end b))
      ])

-- There is no end only of a string of 0xff, and every byte string that is not below such a string
-- starts with it.
top_prefix :
    (bs key : Bytes)
    → All IsByte bs
    → All IsByte key
    → prefix_end bs ≡ none
    → lex key bs ≢ lt
    → starts_with key bs ≡ true
unfolding lex
top_prefix [] key hb hk none_left above = refl
top_prefix (b ∷ bs) [] hb hk none_left above = ground arith
top_prefix (b ∷ bs) (k ∷ ks) hb hk none_left above =
    ground (arith, prefix_end-cons b bs, top_prefix bs ks hb.1 hk.1)

starts_above : (bs key : Bytes) → starts_with key bs ≡ true → lex key bs ≢ lt
unfolding lex
starts_above [] [] _ = λ h. cc
starts_above [] (k ∷ ks) _ = λ h. cc
starts_above (b ∷ bs) [] h = cc
starts_above (b ∷ bs) (k ∷ ks) h = ground (arith, starts_above bs ks)

lex-nil : (key : Bytes) → lex key [] ≢ lt
unfolding lex
lex-nil [] = λ h. cc
lex-nil (k ∷ ks) = λ h. cc

-- The keys from a prefix up to its end are exactly the keys with the prefix.
pub prefix_end_iff :
    (bs end key : Bytes)
    → All IsByte bs
    → All IsByte key
    → prefix_end bs ≡ some end
    → (starts_with key bs ≡ true) ↔ ((lex key bs ≢ lt) × (lex key end ≡ lt))
unfolding lex
prefix_end_iff [] end key hb hk e = (λ h. ground (arith, e, prefix_end-nil), λ h. refl)
prefix_end_iff (b ∷ bs) end [] hb hk e = (λ h. cc, λ h. ground arith)
prefix_end_iff (b ∷ bs) end (k ∷ ks) hb hk e = elim (Option-cases (prefix_end bs)) [
  | inl gone ↦
      let is_end : end ≡ (b + 1) ∷ [] = ground (arith, e, gone, prefix_end-cons b bs) in
      rw is_end (ground (arith, lex-nil ks, starts_above bs ks, top_prefix bs ks hb.1 hk.1 gone))
  | inr (rest, there) ↦
      let is_end : end ≡ b ∷ rest = ground (arith, e, there, prefix_end-cons b bs) in
      rw is_end (ground (arith, starts_above bs ks, prefix_end_iff bs rest ks hb.1 hk.1 there))
]
