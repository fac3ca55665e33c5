-- ===== src/Consensus/Validation/Replay.antt =====
-- consensus/validation.rs: the trusted path gives what the validated path gives.
use exfer.Common.{
  ℕ, ◌+◌, ◌^◌, ◌≤◌, ◌<◌, ◌≡◌, refl, sym, ◌∙◌, ap, arith, Bool-cases, inl, inr, some, List, [], ◌∷◌,
  ◌++◌, length, ltb, u64_max, saturating_add_u64, saturating_add_u128, checked_sub_u128, Result, ok,
  err,
}
use exfer.Common.Exec.{ok_injective}
use exfer.Types.Hash.{Sha}
use exfer.Types.Transaction.{TxInput, Transaction}
use exfer.Types.Block.{Block}
use exfer.Chain.Smt.{Smt}
use exfer.Chain.State.Defs.{UtxoSet, UtxoEntry, UtxoMutation, StateError, outpoint_key}
use exfer.Chain.State.Apply.{spent_outpoint, apply_transaction}
use exfer.Consensus.Validation.Defs.{ValidationError}
use exfer.Consensus.Validation.Coinbase.{total_output}
use exfer.Consensus.Validation.Witness.{Setting}
use exfer.Consensus.Validation.Transaction.{total_input}
use exfer.Consensus.Validation.Accounts.{AreFunded, validate_transaction-IsPaid}
use exfer.Consensus.Validation.Apply.{
  Applied, max_spent_utxos_size, entry_bytes, with_spent, snapshot, apply_rest, Answer, settle,
  after_coinbase, apply_block, validate_and_apply_block_transactions_atomic,
}
use exfer.Consensus.Validation.Succeeded.{
  after_apply-eq-ok, after_snapshot-eq-ok, after_validation-eq-ok, pay_coinbase-eq-ok,
}
use exfer.Consensus.Validation.AssumeValid.{
  trusted_snapshot, after_trusted_apply, after_fee, after_trusted_snapshot, trusted_rest,
  TrustedLoop, trusted_settle, after_trusted_coinbase, apply_trusted,
  apply_block_transactions_assume_valid,
}

module _ (sha : Sha) (smt : Smt) where
  -- The trusted snapshot pushes what the snapshot pushes, and sums the entries that are there.
  trusted_snapshot-snapshot :
      (setting : Setting) (height : ℕ) (is : List TxInput) (es : List UtxoEntry) (s : UtxoSet smt)
      (sum fees : ℕ) (p q : Applied)
      → AreFunded sha smt setting height s is es
      → sum + total_input es < 2 ^ 128
      → snapshot sha smt is s p ≡ ok q
      → (trusted_snapshot sha smt is s sum (record p { total_fees = fees })
          ≡ ok (sum + total_input es, record q { total_fees = fees }))
        × (q.total_fees ≡ p.total_fees)
  unfolding snapshot trusted_snapshot with_spent total_input
  trusted_snapshot-snapshot setting height [] [] s sum fees p q funded fits h =
      let same : p ≡ q = cc in
      let zero_sum : sum + 0 ≡ sum = omega arith in rw (zero_sum, same) (refl, refl)
  trusted_snapshot-snapshot setting height [] (e ∷ es) s sum fees p q funded fits h = absurd funded
  trusted_snapshot-snapshot setting height (i ∷ is) [] s sum fees p q funded fits h = absurd funded
  trusted_snapshot-snapshot setting height (i ∷ is) (e ∷ es) s sum fees p q (found, _, more) fits
        h =
      let op = spent_outpoint i in
      let size = saturating_add_u64 p.spent_utxos_bytes (entry_bytes e) in
      elim (Bool-cases (ltb max_spent_utxos_size size)) [
        | inl above ↦ absurd (cc (rw (snapshot, found, above) at h))
        | inr below ↦
            let next : saturating_add_u128 sum e.output.value ≡ sum + e.output.value =
              ground (arith, fits) in
            let regroup : sum + e.output.value + total_input es
                ≡ sum + (e.output.value + total_input es) =
              omega arith in
            let (trusted, same) =
              trusted_snapshot-snapshot setting height is es s (sum + e.output.value) fees
                (with_spent op e p) q more (omega (arith, fits))
                (rw (snapshot, found, below) at h) in
            (
              rw (trusted_snapshot, found, below, next)
                  (trusted ∙ ap (λ n. ok (n, record q { total_fees = fees })) regroup),
              same,
            )
      ]

  module _ (setting : Setting) (block : Block) where
    abbrev height : ℕ
    height = block.header.height

    -- One round of the trusted loop, when each of its calls succeeds.
    trusted_round :
        (tx : Transaction) (next : TrustedLoop sha smt block) (s u : UtxoSet smt) (p q : Applied)
        (fee : ℕ) (m : List UtxoMutation)
        → trusted_snapshot sha smt tx.inputs s 0 p
          ≡ ok (fee + total_output tx.outputs, record q { total_fees = p.total_fees })
        → apply_transaction sha smt tx height s ≡ (ok m, u)
        → saturating_add_u128 p.total_fees fee ≡ q.total_fees
        → after_trusted_snapshot sha smt block tx
            (length p.spent_utxos)
            next
            (trusted_snapshot sha smt tx.inputs s 0 p)
            s
          ≡ next (record q { mutations = q.mutations ++ m; applied_count = q.applied_count + 1 }) u
    unfolding after_trusted_snapshot after_fee after_trusted_apply
    trusted_round tx next s u p q fee m noted applied fees =
        let left : checked_sub_u128 (fee + total_output tx.outputs) (total_output tx.outputs)
            ≡ some fee =
          ground arith in
        rw (noted, left, applied, fees) refl

    apply_rest-trusted_rest :
        (txs : List Transaction) (p p' : Applied) (s s' : UtxoSet smt)
        → apply_rest sha smt setting block txs p s ≡ (ok p', s')
        → p'.total_fees ≤ u64_max
        → (p.total_fees ≤ p'.total_fees) × (trusted_rest sha smt block txs p s ≡ (ok p', s'))
    unfolding apply_rest trusted_rest
    apply_rest-trusted_rest [] p p' s s' h small =
        let (same, _) = ok_injective p p' s s' h in (omega (arith, ap (λ a. a.total_fees) same), h)
    apply_rest-trusted_rest (tx ∷ txs) p p' s s' h small =
        let (r, accepted, h1) = after_validation-eq-ok sha smt setting block tx p p' _ s s' _ h in
        let (q, noted, h2) = after_snapshot-eq-ok sha smt setting block tx p' _ s s' _ h1 in
        let (m, u, applied, h3) = after_apply-eq-ok sha smt setting block tx q p' _ s' _ h2 in
        let paid =
          validate_transaction-IsPaid sha smt setting tx s height r.0 r.1.0 r.1.1 accepted in
        let (trusted, fees) =
          trusted_snapshot-snapshot setting height tx.inputs paid.entries s 0 p.total_fees
            (record p { total_fees = p.total_fees + r.0 }) q paid.funded (omega (arith, paid.fits))
            noted in
        let balanced : 0 + total_input paid.entries ≡ r.0 + total_output tx.outputs =
          omega (arith, paid.balanced) in
        let (grows, rest) =
          apply_rest-trusted_rest txs
            (record q { mutations = q.mutations ++ m; applied_count = q.applied_count + 1 }) p' u s'
            h3 small in
        (
          omega (arith, grows, fees),
          trusted_round tx (trusted_rest sha smt block txs) s u p q r.0 m (rw balanced at trusted)
                applied (ground (arith, grows, fees, small))
              ∙ rest,
        )

    -- A loop that ends well is settled in the same way.
    settle-trusted_settle :
        (coinbase : Transaction) (looped trusted : Result Applied ValidationError × UtxoSet smt)
        (s' : UtxoSet smt) (a : Answer sha smt setting block)
        → ((p : Applied) (u : UtxoSet smt)
            → looped ≡ (ok p, u)
            → p.total_fees ≤ u64_max
            → trusted ≡ looped)
        → settle sha smt setting block coinbase looped ≡ (ok a, s')
        → trusted_settle sha smt block trusted ≡ (ok a, s')
    unfolding settle trusted_settle
    settle-trusted_settle coinbase (err e, u) trusted s' a alike h = cc
    settle-trusted_settle coinbase (ok p, u) trusted s' a alike h =
        elim (Bool-cases (ltb u64_max p.total_fees)) [
          | inl large ↦ absurd (cc (rw large at h))
          | inr small ↦
              let (_, _, _, same, ends) =
                pay_coinbase-eq-ok sha smt setting block coinbase p _ u s' a (rw small at h) in
              rw (alike p u refl (ground (arith, small)), small) (rw (same, ends) refl)
        ]

    after_coinbase-after_trusted_coinbase :
        (coinbase : Transaction) (txs : List Transaction)
        (r : Result (List UtxoMutation) StateError × UtxoSet smt) (s' : UtxoSet smt)
        (a : Answer sha smt setting block)
        → after_coinbase sha smt setting block coinbase txs r ≡ (ok a, s')
        → after_trusted_coinbase sha smt block coinbase txs r ≡ (ok a, s')
    unfolding after_coinbase after_trusted_coinbase
    after_coinbase-after_trusted_coinbase coinbase txs (err e, u) s' a h = cc
    after_coinbase-after_trusted_coinbase coinbase txs (ok m, u) s' a h =
        settle-trusted_settle coinbase _ _ s' a
          (λ p v looped small. (apply_rest-trusted_rest txs _ p u v looped small).1 ∙ sym looped) h

    apply_block-apply_trusted :
        (txs : List Transaction) (s s' : UtxoSet smt) (a : Answer sha smt setting block)
        → apply_block sha smt setting block txs s ≡ (ok a, s')
        → apply_trusted sha smt block txs s ≡ (ok a, s')
    unfolding apply_block apply_trusted
    apply_block-apply_trusted [] s s' a h = cc
    apply_block-apply_trusted (coinbase ∷ txs) s s' a h =
        after_coinbase-after_trusted_coinbase coinbase txs _ s' a h

  -- A block that validate_and_apply_block_transactions_atomic accepts is accepted by
  -- apply_block_transactions_assume_valid on the same set, with the same fees, the same log and the
  -- same set afterwards: a replay of a validated chain may take the trusted path.
  pub assume_valid_replays :
      (setting : Setting) (block : Block) (s s' : UtxoSet smt) (a : ℕ × List UtxoMutation)
      → validate_and_apply_block_transactions_atomic sha smt setting block s ≡ (ok a, s')
      → apply_block_transactions_assume_valid sha smt block s ≡ (ok a, s')
  unfolding validate_and_apply_block_transactions_atomic apply_block_transactions_assume_valid
  assume_valid_replays setting block s s' a h =
      apply_block-apply_trusted setting block block.transactions s s' a h
