-- ===== src/Pipeline/Writer/BalanceWrites.antt =====
-- The balance loop of `write_block`: each account of the tally gets its new balance, and no other
-- balance changes.
use nightfrost.Prelude.{
  ℕ, ◌^◌, ◌<◌, ◌≡◌, ap, sym, ◌∙◌, false, Option, none, some, [], ◌∷◌, ◌++◌, arith, All, ok,
  >>=-eq-ok, ok-injective, subst, if◌then◌else◌, Bool-cases, inl, inr,
}
use nightfrost.Prelude.Keyed
use nightfrost.Prelude.Keyed.{Key, pair_key, pair_beq, pair_beq_iff, IsMap}
use nightfrost.Bytes.{Bytes, bytes_eq, bytes_eq_refl, bytes_eq_iff, to_be}
use nightfrost.Store.Fjall.{Fjall, Batch, latest, same_key, tag, balances}
use nightfrost.Store.Keys.{balance_key, append-injective}
use nightfrost.Pipeline.Writer.Defs.{bytes_key, batch_insert, latest-batch_insert, fold_ok}
use nightfrost.Pipeline.Writer.Utxos.{Deltas, i128_add}
use nightfrost.Pipeline.Writer.Balances.{current_balance, u128_of_i128, write_balance}
use nightfrost.Pipeline.Writer.Deltas.{Account, IsAccount}

abbrev pub key_of : Account → Bytes
key_of acc = balance_key acc.0 acc.1

-- Two accounts with one key are one account.
other_key :
    (acc k : Account)
    → IsAccount acc
    → IsAccount k
    → pair_beq k acc ≡ false
    → bytes_eq (key_of acc) (key_of k) ≡ false
unfolding balance_key
other_key (o, t) (p, q) h k e = ground (
  arith,
  bytes_eq_iff (o ++ t) (p ++ q),
  bytes_eq_refl o,
  bytes_eq_refl t,
  λ (x : o ++ t ≡ p ++ q). append-injective o t p q (omega arith) x,
)

u128_small : (bits n : ℕ) → u128_of_i128 bits ≡ ok n → (n ≡ bits) × (n < 2 ^ 127)
unfolding u128_of_i128
u128_small bits n h = ground arith

module _ (F : Fjall) (s : F.Keyspace) where
  -- One entry of the tally, written.
  pub record Written (b c : Batch) (k : Account) (d : ℕ) : Type 0 where
    pub current : ℕ
    pub updated : ℕ
    pub reading : current_balance F s (key_of k) ≡ ok current
    pub sum : updated ≡ i128_add current d
    pub small : updated < 2 ^ 127
    pub batch : c ≡ batch_insert b balances (key_of k) (to_be 16 updated)

  write_balance-Written :
      (b c : Batch) (k : Account) (d : ℕ) → write_balance F s b (k, d) ≡ ok c → Written b c k d
  unfolding write_balance
  write_balance-Written b c (owner, token) d h =
      let (current, reading, h1) = >>=-eq-ok (current_balance F s (balance_key owner token)) _ h in
      let (updated, fits, h2) = >>=-eq-ok (u128_of_i128 (i128_add current d)) _ h1 in
      let (sum, small) = u128_small (i128_add current d) updated fits in
      record {
        current = current;
        updated = updated;
        reading = reading;
        sum = sum;
        small = small;
        batch = sym (ok-injective h2);
      }

  latest-Written :
      (b c : Batch) (k acc : Account) (d : ℕ) (old : Option Bytes) (x : Written b c k d)
      → latest balances (key_of acc) old c ≡ (
          if bytes_eq (key_of acc) (key_of k)
          then some (to_be 16 x.updated)
          else latest balances (key_of acc) old b)
  unfolding same_key tag
  latest-Written b c k acc d old x =
      ap (λ t. latest balances (key_of acc) old t) x.batch
      ∙ latest-batch_insert balances (key_of acc) old b balances (key_of k) (to_be 16 x.updated)

  -- An account that is not in the tally keeps its balance.
  pub absent_balance :
      (acc : Account) (old : Option Bytes) (b c : Batch) (m : Deltas)
      → IsAccount acc
      → All (λ e. IsAccount e.0) m
      → Keyed.lookup acc m ≡ none
      → fold_ok (write_balance F s) b m ≡ ok c
      → latest balances (key_of acc) old c ≡ latest balances (key_of acc) old b
  unfolding fold_ok Keyed.lookup
  absent_balance acc old b c [] ha hm gone h =
      ap (λ t. latest balances (key_of acc) old t) (sym (ok-injective h))
  absent_balance acc old b c ((k, d) ∷ m) ha hm gone h =
      let (y, step, rest) = >>=-eq-ok (write_balance F s b (k, d)) _ h in
      let x = write_balance-Written b y k d step in
      let other : pair_beq k acc ≡ false = ground arith in
      absent_balance acc old y c m ha hm.1 (ground arith) rest
      ∙ latest-Written b y k acc d old x
      ∙ rw (other_key acc k ha hm.0 other)

  -- The new balance of an account in the tally.
  pub record Balanced (c : Batch) (acc : Account) (d : ℕ) (old : Option Bytes) : Type 0 where
    pub current : ℕ
    pub updated : ℕ
    pub reading : current_balance F s (key_of acc) ≡ ok current
    pub sum : updated ≡ i128_add current d
    pub small : updated < 2 ^ 127
    pub stored : latest balances (key_of acc) old c ≡ some (to_be 16 updated)

  head_balance :
      (acc : Account) (d : ℕ) (old : Option Bytes) (b y c : Batch) (m : Deltas)
      → Written b y acc d
      → IsAccount acc
      → All (λ e. IsAccount e.0) m
      → Keyed.lookup acc m ≡ none
      → fold_ok (write_balance F s) y m ≡ ok c
      → Balanced c acc d old
  head_balance acc d old b y c m x ha hm fresh rest = record {
    current = x.current;
    updated = x.updated;
    reading = x.reading;
    sum = x.sum;
    small = x.small;
    stored =
        absent_balance acc old y c m ha hm fresh rest
        ∙ latest-Written b y acc acc d old x
        ∙ rw (bytes_eq_refl (key_of acc));
  }

  pub present_balance :
      (acc : Account) (d : ℕ) (old : Option Bytes) (b c : Batch) (m : Deltas)
      → IsAccount acc
      → All (λ e. IsAccount e.0) m
      → IsMap m
      → Keyed.lookup acc m ≡ some d
      → fold_ok (write_balance F s) b m ≡ ok c
      → Balanced c acc d old
  unfolding fold_ok Keyed.lookup
  present_balance acc d old b c [] ha hm once there h = absurd (ground arith)
  present_balance acc d old b c ((k, e) ∷ m) ha hm once there h =
      let (y, step, rest) = >>=-eq-ok (write_balance F s b (k, e)) _ h in
      let x = write_balance-Written b y k e step in
      elim (Bool-cases (pair_beq k acc)) [
        | inl same ↦
            let eq = (pair_beq_iff k acc).0 same in
            subst (λ t. Balanced c acc t old) (ground arith)
              (head_balance acc e old b y c m (subst (λ t. Written b y t e) eq x) ha hm.1
                (subst (λ t. Keyed.lookup t m ≡ none) eq once.0) rest)
        | inr other ↦ present_balance acc d old y c m ha hm.1 once.1 (ground arith) rest
      ]
