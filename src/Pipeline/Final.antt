-- ===== src/Pipeline/Final.antt =====
-- The state at the end of `index_block` in crates/nightfrost-chain/src/pipeline.rs: none within a
-- block.
use nightfrost.Prelude.{
  ℕ, ◌≡◌, refl, ap, subst, ◌∙◌, Option, some, List, ok, >>=-eq-ok, ok-injective, true, none, Result,
  ok_or, ◌==◌, Bool-cases, inl, inr,
}
use nightfrost.Bytes.{Bytes, bytes_eq}
use nightfrost.Store.Error.{
  Error, genesis_without_ledger_state, genesis_without_root, ledger_state_root_mismatch,
  zswap_state_root_mismatch,
}
use nightfrost.Domain.Version.{ledger_version}
use nightfrost.Pipeline.Chain.{Block}
use nightfrost.Pipeline.Writer.Defs.{AppliedTransaction}
use nightfrost.Pipeline.Replay.Facade.{Facade, in_context}
use nightfrost.Pipeline.Replay.Index.{
  replay, parent_time, check, root_matches, start_state, genesis, apply_transactions, or_state,
}
use nightfrost.Pipeline.Replay.Guard.{in_context-ok}
use nightfrost.Pipeline.Run.{Storage}

module _ (L : Facade) (S : Storage L) where
  or_state-IsFinal :
      (given : Option L.State) (finished : L.State)
      → S.IsFinal finished
      → ((state : L.State) → given ≡ some state → S.IsFinal state)
      → S.IsFinal (or_state L given finished)
  or_state-IsFinal none finished at_end genesis_end = at_end
  or_state-IsFinal (some state) finished at_end genesis_end = genesis_end state refl

  no_state :
      {base state : L.State} {base' : L.State}
      → ◌≡◌ {A = Result Error (L.State × Option L.State)} (ok (base, none)) (ok (base', some state))
      → ⊥
  no_state e = cc

  some_state :
      {base base' state state' : L.State}
      → ◌≡◌ {A = Result Error (L.State × Option L.State)}
          (ok (base, some state))
          (ok (base', some state'))
      → state ≡ state'
  some_state e = cc

  genesis-IsFinal :
      (b : Block) (raw : Option Bytes) (state base genesis_state : L.State)
      → genesis L b raw state ≡ ok (base, some genesis_state)
      → S.IsFinal genesis_state
  unfolding genesis
  genesis-IsFinal b raw state base genesis_state h = elim (Bool-cases (b.height == 0)) [
    | inr later ↦ absurd (no_state (rw later at h))
    | inl first ↦
        let (given, _, h1) = >>=-eq-ok (ok_or raw genesis_without_ledger_state) _ (rw first at h) in
        let (loaded, loading, h2) =
          >>=-eq-ok (in_context (L.from_genesis given (ledger_version b.protocol_version))) _ h1 in
        let (genesis_root, _, h3) = >>=-eq-ok (in_context (L.root loaded)) _ h2 in
        let (node_root, _, h4) = >>=-eq-ok (ok_or b.ledger_state_root genesis_without_root) _ h3 in
        elim (Bool-cases (bytes_eq node_root genesis_root)) [
          | inr differ ↦ absurd (no_state (rw differ at h4))
          | inl same ↦ subst S.IsFinal (some_state (rw same at h4)) (
              S.genesis-IsFinal given (ledger_version b.protocol_version) loaded
                (in_context-ok (L.from_genesis given (ledger_version b.protocol_version)) loading))
        ]
  ]

  -- The state at the end of a replay is final.
  pub replay-IsFinal :
      (b : Block) (raw : Option Bytes) (state : L.State) (time : ℕ) (final : L.State)
      (derived : List AppliedTransaction)
      → replay L b raw state time ≡ ok (final, derived)
      → S.IsFinal final
  unfolding replay
  replay-IsFinal b raw state time final derived h =
      let (started, _, h1) = >>=-eq-ok (start_state L b state) _ h in
      let ((base, genesis_state), started_from, h2) = >>=-eq-ok (genesis L b raw started) _ h1 in
      let ((applied, _), _, h3) =
        >>=-eq-ok (apply_transactions L b (parent_time time b) true base b.transactions) _ h2 in
      let (finished, finishing, h4) =
        >>=-eq-ok (in_context (L.finalize_apply_transactions applied b.timestamp)) _ h3 in
      let replayed = or_state L genesis_state finished in
      let (root, _, h5) = >>=-eq-ok (in_context (L.root replayed)) _ h4 in
      let (_, _, h6) =
        >>=-eq-ok (check (root_matches b.ledger_state_root root) ledger_state_root_mismatch) _ h5 in
      let (_, _, h7) =
        >>=-eq-ok
          (check (bytes_eq (L.zswap_merkle_tree_root replayed) b.zswap_merkle_tree_root)
            zswap_state_root_mismatch)
          _ h6 in
      let at_end =
        S.finalize-IsFinal applied finished b.timestamp
          (in_context-ok (L.finalize_apply_transactions applied b.timestamp) finishing) in
      subst S.IsFinal (ap (λ x. x.0) (ok-injective h7)) (
        or_state-IsFinal genesis_state finished at_end (λ given e.
          genesis-IsFinal b raw started base given (started_from ∙ ap (λ g. ok (base, g)) e)))
