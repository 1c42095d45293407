-- ===== src/Api/Routes/Indexes.antt =====
-- The order of the indexes that `block_txs` of crates/nightfrost-api/src/routes.rs pages through.
use nightfrost.Prelude.{
  ℕ, zero, suc, ◌+◌, ◌-◌, ◌≤◌, ◌<◌, ◌≡◌, refl, ap, sym, ◌∙◌, Option, none, some, List, [], ◌∷◌, ltb,
  length, take, drop, last?, arith, All, Bool-cases, inl, inr, ltb→lt,
}
use nightfrost.Api.Pagination.{Order, asc, desc}
use nightfrost.Api.Routes.BlockTxs.{span, down, ordered, is_past, filter}

length-span : (start n : ℕ) → length (span start n) ≡ n
unfolding span
length-span start zero = refl
length-span start (suc n) = ap suc (length-span (start + 1) n)

length-down : (n : ℕ) → length (down n) ≡ n
unfolding down
length-down zero = refl
length-down (suc n) = ap suc (length-down n)

drop-span : (k start n : ℕ) → k ≤ n → drop k (span start n) ≡ span (start + k) (n - k)
unfolding span
drop-span zero start n h = ground arith
drop-span (suc k) start zero h = ground arith
drop-span (suc k) start (suc n) h = ground (arith, drop-span k (start + 1) n (omega (arith, h)))

drop-down : (k n : ℕ) → k ≤ n → drop k (down n) ≡ down (n - k)
unfolding down
drop-down zero n h = ground arith
drop-down (suc k) zero h = ground arith
drop-down (suc k) (suc n) h = ground (arith, drop-down k n (omega (arith, h)))

filter-span_all :
    (after start n : ℕ)
    → after < start
    → filter (is_past asc (some after)) (span start n) ≡ span start n
unfolding span filter is_past
filter-span_all after start zero h = refl
filter-span_all after start (suc n) h =
    ground (arith, h, filter-span_all after (start + 1) n (omega (arith, h)))

filter-span :
    (after start n : ℕ)
    → start ≤ after + 1
    → after + 1 ≤ start + n
    → filter (is_past asc (some after)) (span start n) ≡ span (after + 1) (start + n - (after + 1))
unfolding span filter is_past
filter-span after start zero low high =
    let nothing : 0 ≡ start + 0 - (after + 1) = omega (arith, high) in ap (span (after + 1)) nothing
filter-span after start (suc n) low high = elim (Bool-cases (ltb after start)) [
  | inl past ↦
      let first : start ≡ after + 1 = ground (arith, past, low) in
      let rest : suc n ≡ start + suc n - (after + 1) = omega (arith, first) in
      filter-span_all after start (suc n) (ltb→lt after start past)
      ∙ ap (λ k. span k (suc n)) first
      ∙ ap (span (after + 1)) rest
  | inr early ↦
      let before : start ≤ after = ground (arith, early) in
      let rest : start + 1 + n - (after + 1) ≡ start + suc n - (after + 1) = omega arith in
      rw early (
        filter-span after (start + 1) n (omega (arith, before)) (omega (arith, high))
        ∙ ap (span (after + 1)) rest)
]

filter-down_all : (after n : ℕ) → n ≤ after → filter (is_past desc (some after)) (down n) ≡ down n
unfolding down filter is_past
filter-down_all after zero h = refl
filter-down_all after (suc n) h = ground (arith, h, filter-down_all after n (omega (arith, h)))

filter-down : (after n : ℕ) → after ≤ n → filter (is_past desc (some after)) (down n) ≡ down after
unfolding down filter is_past
filter-down after zero h = ground (arith, h)
filter-down after (suc n) h = elim (Bool-cases (ltb n after)) [
  | inl past ↦
      let all : suc n ≡ after = ground (arith, past, h) in
      filter-down_all after (suc n) (omega (arith, all)) ∙ ap down all
  | inr early ↦ rw early (filter-down after n (ground (arith, early)))
]

last-take-span :
    (c start n : ℕ) → suc c ≤ n → last? (take (suc c) (span start n)) ≡ some (start + c)
unfolding span
last-take-span c start zero h = ground arith
last-take-span zero start (suc n) h = ground arith
last-take-span (suc c) start (suc zero) h = ground arith
last-take-span (suc c) start (suc (suc n)) h =
    last-take-span c (start + 1) (suc n) (omega (arith, h)) ∙ ap some (omega arith)

last-take-down : (c n : ℕ) → suc c ≤ n → last? (take (suc c) (down n)) ≡ some (n - suc c)
unfolding down
last-take-down c zero h = ground arith
last-take-down zero (suc n) h = ground arith
last-take-down (suc c) (suc zero) h = ground arith
last-take-down (suc c) (suc (suc n)) h =
    last-take-down c (suc n) (omega (arith, h)) ∙ ap some (omega arith)

-- The position after the first `k` indexes.
abbrev pub position_of : Order → ℕ → ℕ → Option ℕ
position_of order n zero = none
position_of asc n (suc k) = some k
position_of desc n (suc k) = some (n - suc k)

filter-none : (order : Order) (xs : List ℕ) → filter (is_past order none) xs ≡ xs
unfolding filter is_past
filter-none order [] = refl
filter-none order (x ∷ xs) = ap (λ l. x ∷ l) (filter-none order xs)

-- Behind the position after the first `k` indexes stand the others.
pub filter-ordered :
    (order : Order) (n k : ℕ)
    → k ≤ n
    → filter (is_past order (position_of order n k)) (ordered order n) ≡ drop k (ordered order n)
unfolding ordered
filter-ordered order n zero h = filter-none order (ordered order n)
filter-ordered asc n (suc k) h =
    let start : k + 1 ≡ 0 + suc k = omega arith in
    let rest : 0 + n - (k + 1) ≡ n - suc k = omega arith in
    filter-span k 0 n (omega arith) (omega (arith, h))
    ∙ ap (λ a. span a (0 + n - (k + 1))) start
    ∙ ap (span (0 + suc k)) rest
    ∙ sym (drop-span (suc k) 0 n h)
filter-ordered desc n (suc k) h =
    filter-down (n - suc k) n (omega arith) ∙ sym (drop-down (suc k) n h)

-- The last of the next indexes gives the position after them.
last-take-suc :
    (order : Order) (n k c : ℕ)
    → k + suc c ≤ n
    → last? (take (suc c) (drop k (ordered order n))) ≡ position_of order n (k + suc c)
unfolding ordered
last-take-suc asc n k c h =
    let more : suc (k + c) ≡ k + suc c = omega arith in
    let last : 0 + k + c ≡ k + c = omega arith in
    ap (λ l. last? (take (suc c) l)) (drop-span k 0 n (omega (arith, h)))
    ∙ last-take-span c (0 + k) (n - k) (omega (arith, h))
    ∙ ap some last
    ∙ ap (position_of asc n) more
last-take-suc desc n k c h =
    let more : suc (k + c) ≡ k + suc c = omega arith in
    let last : n - k - suc c ≡ n - suc (k + c) = omega arith in
    ap (λ l. last? (take (suc c) l)) (drop-down k n (omega (arith, h)))
    ∙ last-take-down c (n - k) (omega (arith, h))
    ∙ ap some last
    ∙ ap (position_of desc n) more

pub last-take-ordered :
    (order : Order) (n k count : ℕ)
    → 1 ≤ count
    → k + count ≤ n
    → last? (take count (drop k (ordered order n))) ≡ position_of order n (k + count)
last-take-ordered order n k zero low h = ground (arith, low)
last-take-ordered order n k (suc c) low h = last-take-suc order n k c h

-- Positions are indexes.
pub position-below :
    (order : Order) (n k : ℕ) → 1 ≤ k → k ≤ n → (p : ℕ) × (position_of order n k ≡ some p) × (p < n)
position-below order n zero low h = ground (arith, low)
position-below asc n (suc k) low h = (k, refl, omega (arith, h))
position-below desc n (suc k) low h = (n - suc k, refl, omega (arith, h))

pub length-ordered : (order : Order) (n : ℕ) → length (ordered order n) ≡ n
unfolding ordered
length-ordered asc n = length-span 0 n
length-ordered desc n = length-down n

span-All : (n start k : ℕ) → start + k ≤ n → All (λ i. i < n) (span start k)
unfolding span
span-All n start zero h = tt
span-All n start (suc k) h = (omega (arith, h), span-All n (start + 1) k (omega (arith, h)))

down-All : (n k : ℕ) → k ≤ n → All (λ i. i < n) (down k)
unfolding down
down-All n zero h = tt
down-All n (suc k) h = (omega (arith, h), down-All n k (omega (arith, h)))

pub ordered-All : (order : Order) (n : ℕ) → All (λ i. i < n) (ordered order n)
unfolding ordered
ordered-All asc n = span-All n 0 n (omega arith)
ordered-All desc n = down-All n n (omega arith)
