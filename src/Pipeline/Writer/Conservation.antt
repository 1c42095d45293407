-- ===== src/Pipeline/Writer/Conservation.antt =====
-- The balances that `write_block` stores: for every account the old balance, plus what the block
-- created, less what it spent.
use nightfrost.Prelude.{
  ℕ, ◌+◌, ◌%◌, ◌^◌, ◌<◌, ◌≡◌, refl, ap, sym, ◌∙◌, none, some, List, [], arith, ok, ok-injective,
  Option-cases, inl, inr,
}
use nightfrost.Prelude.Keyed
use nightfrost.Prelude.Keyed.{Key, pair_key, pair_beq, pair_beq_iff, IsMap}
use nightfrost.Bytes.{Bytes, to_be, read_be}
use nightfrost.Bytes.BigEndian.{read_be-to_be}
use nightfrost.Store.Fjall.{Fjall, latest, balances}
use nightfrost.Store.Reads.{decoded-some}
use nightfrost.Store.Records.{Postcard, LedgerStateWindow}
use nightfrost.Pipeline.Chain.{Block}
use nightfrost.Pipeline.Writer.Defs.{Counters, AppliedTransaction, bytes_key, new_writer}
use nightfrost.Pipeline.Writer.Utxos.{Deltas, delta_of, i128_add}
use nightfrost.Pipeline.Writer.Balances.{current_balance}
use nightfrost.Pipeline.Writer.Commit.{write_block}
use nightfrost.Pipeline.Writer.BlockRun.{BlockRun, final_batch, write_block-BlockRun}
use nightfrost.Pipeline.Writer.BalanceWrites.{key_of, absent_balance, present_balance}
use nightfrost.Pipeline.Writer.Deltas.{Account, created_value, spent_value, IsAccount, IsTally}
use nightfrost.Pipeline.Writer.Tallies.{
  BlockHasAccounts, transactions-IsTally, transactions-balances, final_balances,
}

exact :
    (old d new c s : ℕ)
    → (d + s) % 2 ^ 128 ≡ c % 2 ^ 128
    → new ≡ (old + d) % 2 ^ 128
    → old < 2 ^ 127
    → c < 2 ^ 127
    → s < 2 ^ 127
    → new < 2 ^ 127
    → new + s ≡ old + c
exact old d new c s h k h1 h2 h3 h4 = omega arith

unchanged :
    (old d c s : ℕ)
    → (d + s) % 2 ^ 128 ≡ c % 2 ^ 128
    → d ≡ 0
    → c < 2 ^ 127
    → s < 2 ^ 127
    → old + s ≡ old + c
unchanged old d c s h z hc hs = omega arith

start_delta : (acc : Account) (ids : Counters) → delta_of acc (new_writer ids).balance_deltas ≡ 0
unfolding delta_of new_writer Keyed.lookup
start_delta acc ids = refl

delta_none : (acc : Account) (m : Deltas) → Keyed.lookup acc m ≡ none → delta_of acc m ≡ 0
unfolding delta_of
delta_none acc m h = rw (h, delta_of)

delta_some : (acc : Account) (d : ℕ) (m : Deltas) → Keyed.lookup acc m ≡ some d → delta_of acc m ≡ d
unfolding delta_of
delta_some acc d m h = rw (h, delta_of)

same_balance :
    (F : Fjall) (s s' : F.Keyspace) (k : Bytes)
    → F.get s' balances k ≡ F.get s balances k
    → current_balance F s' k ≡ current_balance F s k
unfolding current_balance
same_balance F s s' k e = rw e

new_balance :
    (F : Fjall) (s : F.Keyspace) (k : Bytes) (n : ℕ)
    → F.get s balances k ≡ some (to_be 16 n)
    → n < 2 ^ 127
    → current_balance F s k ≡ ok n
unfolding current_balance
new_balance F s k n e h =
    rw (decoded-some (read_be 16) (F.get s balances k) e (read_be-to_be 16 n (omega arith)))

empty-IsTally : IsTally []
empty-IsTally = record { once = tt; accounts = tt }

module _ (P : Postcard) (F : Fjall) (s s' : F.Keyspace) (b : Block) (xs : List AppliedTransaction)
    (key : Bytes) (window : LedgerStateWindow) (ids ids' : Counters)
    (written : write_block P F s b xs key window ids ≡ ok (s', ids')) where
  -- The balance entry after the block, from the balance loop's batch.
  balance_entry :
      (k : Bytes)
      → (r : BlockRun P F s b xs ids) × (F.get s' balances k
          ≡ latest balances k (F.get s balances k) r.balanced)
  balance_entry k =
      let (r, e, _) = write_block-BlockRun P F s b xs key window ids ids' s' written in
      (
        r,
        ap (λ t. F.get t balances k) e
            ∙ F.get-commit s (final_batch P F s r key window) balances k
            ∙ (final_balances P F s r key window).at k _,
      )

  -- Both cases of the tally, for the account's new entry.
  settle :
      (acc : Account) (old : ℕ) (r : BlockRun P F s b xs ids)
      → F.get s' balances (key_of acc)
        ≡ latest balances (key_of acc) (F.get s balances (key_of acc)) r.balanced
      → BlockHasAccounts xs
      → IsAccount acc
      → current_balance F s (key_of acc) ≡ ok old
      → old < 2 ^ 127
      → created_value acc xs < 2 ^ 127
      → spent_value acc xs < 2 ^ 127
      → (new : ℕ) × (current_balance F s' (key_of acc) ≡ ok new)
        × (new + spent_value acc xs ≡ old + created_value acc xs)
  unfolding new_writer latest i128_add
  settle acc old r entry ba ha ho h1 h2 h3 =
      let (gained, tally) =
        transactions-IsTally P F s acc b.height (new_writer ids) r.written 0 r.count xs r.writing ba
          empty-IsTally in
      let net : (delta_of acc r.written.balance_deltas + spent_value acc xs) % 2 ^ 128
          ≡ created_value acc xs % 2 ^ 128 =
        omega (arith, gained, start_delta acc ids) in
      elim (Option-cases (Keyed.lookup acc r.written.balance_deltas)) [
        | inl gone ↦
            let alone =
              absent_balance F s acc (F.get s balances (key_of acc)) r.written.batch r.balanced
                r.written.balance_deltas ha tally.accounts gone r.balancing in
            (
              old,
              same_balance F s s' (key_of acc) (
                    entry
                    ∙ alone
                    ∙ (transactions-balances P F s b.height (new_writer ids) r.written 0 r.count xs
                          r.writing).at
                        (key_of acc) (F.get s balances (key_of acc)))
                  ∙ ho,
              unchanged old (delta_of acc r.written.balance_deltas) _ _ net
                  (delta_none acc r.written.balance_deltas gone) h2 h3,
            )
        | inr (d, there) ↦
            let n =
              present_balance F s acc d (F.get s balances (key_of acc)) r.written.batch r.balanced
                r.written.balance_deltas ha tally.accounts tally.once there r.balancing in
            let known : n.current ≡ old = ok-injective (sym n.reading ∙ ho) in
            (
              n.updated,
              new_balance F s' (key_of acc) n.updated (entry ∙ n.stored) n.small,
              exact old (delta_of acc r.written.balance_deltas) n.updated _ _ net
                  (n.sum ∙ rw (known, delta_some acc d r.written.balance_deltas there) refl) h1 h2
                  h3 n.small,
            )
      ]

  -- For every account: the balance that is stored after the block, plus what the block spent, is
  -- the balance before plus what the block created. A block's utxos belong to accounts of 32-byte
  -- owners and tokens, and the old balance and both sums stay below 2^127.
  pub balances_conserved :
      (acc : Account) (old : ℕ)
      → BlockHasAccounts xs
      → IsAccount acc
      → current_balance F s (key_of acc) ≡ ok old
      → old < 2 ^ 127
      → created_value acc xs < 2 ^ 127
      → spent_value acc xs < 2 ^ 127
      → (new : ℕ) × (current_balance F s' (key_of acc) ≡ ok new)
        × (new + spent_value acc xs ≡ old + created_value acc xs)
  balances_conserved acc old = let (r, entry) = balance_entry (key_of acc) in settle acc old r entry
