-- ===== src/Pipeline/Replay/Derived.antt =====
-- What the transaction loop of `index_block` of crates/nightfrost-chain/src/pipeline.rs derives.
use nightfrost.Prelude.{
  ℕ, ◌≡◌, refl, sym, ◌∙◌, ap, subst, Bool, true, false, not, ◌&&◌, ltb, List, [], ◌∷◌, ok,
  >>=-eq-ok, ok-injective,
}
use nightfrost.Bytes.{Bytes}
use nightfrost.Pipeline.Chain.{Block, Transaction, regular, system}
use nightfrost.Pipeline.Writer.Defs.{AppliedTransaction}
use nightfrost.Pipeline.Replay.Facade.{Facade, in_context}
use nightfrost.Pipeline.Replay.Apply.{apply_regular, apply_transaction}
use nightfrost.Pipeline.Replay.Index.{is_regular, apply_transactions}

abbrev pub transaction_hash : Transaction → Bytes
transaction_hash (regular tx) = tx.hash
transaction_hash (system tx) = tx.hash

abbrev pub transaction_raw : Transaction → Bytes
transaction_raw (regular tx) = tx.raw
transaction_raw (system tx) = tx.raw

-- One applied transaction for each transaction, in order, whose zswap intervals follow one another
-- from one index to another.
abbrev pub IsDerived : ℕ → ℕ → List Transaction → List AppliedTransaction → Type 0
IsDerived from to [] [] = from ≡ to
IsDerived from to (tx ∷ txs) (a ∷ derived) =
    (a.hash ≡ transaction_hash tx)
    × (a.raw ≡ transaction_raw tx)
    × (a.zswap_start_index ≡ from)
    × IsDerived a.zswap_end_index to txs derived
IsDerived from to [] (a ∷ derived) = false ≡ true
IsDerived from to (tx ∷ txs) [] = false ≡ true

module _ (L : Facade) (block : Block) (time : ℕ) where
  applied_fields :
      (state after : L.State) (tx : Transaction) (bump : Bool) (a : AppliedTransaction)
      → apply_transaction L state tx block time bump ≡ ok (after, a)
      → (a.hash ≡ transaction_hash tx)
        × (a.raw ≡ transaction_raw tx)
        × (a.zswap_start_index ≡ L.zswap_first_free state)
        × (a.zswap_end_index ≡ L.zswap_first_free after)
  unfolding apply_transaction
  applied_fields state after (regular tx) bump a h =
      let ((reached, outcome), _, made) =
        >>=-eq-ok (in_context (apply_regular L state tx block time bump)) _ h in
      let same = sym (ok-injective made) in
      (
        ap (λ x. x.1.hash) same,
        ap (λ x. x.1.raw) same,
        ap (λ x. x.1.zswap_start_index) same,
        ap (λ x. x.1.zswap_end_index) same ∙ ap (λ x. L.zswap_first_free x.0) (sym same),
      )
  applied_fields state after (system tx) bump a h =
      let ((reached, outcome), _, made) =
        >>=-eq-ok (in_context (L.apply_system_transaction state tx.raw block.timestamp)) _ h in
      let same = sym (ok-injective made) in
      (
        ap (λ x. x.1.hash) same,
        ap (λ x. x.1.raw) same,
        ap (λ x. x.1.zswap_start_index) same,
        ap (λ x. x.1.zswap_end_index) same ∙ ap (λ x. L.zswap_first_free x.0) (sym same),
      )

  -- When a block's transactions are replayed, each yields one applied transaction with its own hash
  -- and raw bytes, in the block's order; the first one's zswap interval starts at the first free
  -- index of the state before, each next one's where the one before it ended, and the last one ends
  -- at the first free index of the state after.
  pub apply_transactions-IsDerived :
      (first_regular : Bool) (state final : L.State) (txs : List Transaction)
      (derived : List AppliedTransaction)
      → apply_transactions L block time first_regular state txs ≡ ok (final, derived)
      → IsDerived (L.zswap_first_free state) (L.zswap_first_free final) txs derived
  unfolding apply_transactions
  apply_transactions-IsDerived first_regular state final [] derived h =
      subst (λ x. IsDerived (L.zswap_first_free state) (L.zswap_first_free x.0) [] x.1)
        (ok-injective h) refl
  apply_transactions-IsDerived first_regular state final (tx ∷ txs) derived h =
      let ((after, applied), one, h1) =
        >>=-eq-ok (apply_transaction L state tx block time (ltb 0 block.height && first_regular)) _
          h in
      let ((final', rest), others, h2) =
        >>=-eq-ok (apply_transactions L block time (first_regular && not (is_regular tx)) after txs)
          _ h1 in
      let same = ok-injective h2 in
      let (hash, raw, starts, ends) =
        applied_fields state after tx (ltb 0 block.height && first_regular) applied one in
      let later =
        apply_transactions-IsDerived (first_regular && not (is_regular tx)) after final' txs rest
          others in
      subst (λ x. IsDerived (L.zswap_first_free state) (L.zswap_first_free x.0) (tx ∷ txs) x.1) same
        (
          hash,
          raw,
          starts,
          subst (λ n. IsDerived n (L.zswap_first_free final') txs rest) (sym ends) later,
        )
