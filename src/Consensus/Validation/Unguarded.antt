-- ===== src/Consensus/Validation/Unguarded.antt =====
-- consensus/validation.rs: applying the transactions of a block without rollback.
use exfer.Common.{
  ℕ, ◌+◌, ◌≡◌, refl, sym, ◌∙◌, ap, Bool-cases, inl, inr, List, [], ◌∷◌, ◌++◌, map, ltb, u64_max,
  checked_add_u64, Result, ok, err, reject, ok_or,
}
use exfer.Common.Exec.{Exec, ◌>>=◌, ◌>>◌, pure, run_after, ok_injective}
use exfer.Types.Hash.{Sha}
use exfer.Types.Transaction.{Transaction}
use exfer.Types.Block.{Block}
use exfer.Chain.Smt.{Smt}
use exfer.Chain.State.Defs.{UtxoSet, UtxoMutation, StateError}
use exfer.Chain.State.Apply.{spent_outpoint, apply_transaction}
use exfer.Consensus.Reward.{block_reward}
use exfer.Consensus.Validation.Defs.{
  ValidationError, Corruption, no_coinbase, value_overflow, reward_overflow, state_corrupted,
  coinbase_apply, tx_apply,
}
use exfer.Consensus.Validation.Coinbase.{validate_coinbase}
use exfer.Consensus.Validation.Spendable.{output_rules}
use exfer.Consensus.Validation.Witness.{Setting}
use exfer.Consensus.Validation.Transaction.{validate_transaction}
use exfer.Consensus.Validation.Apply.{
  Applied, apply_rest, Answer, settle, after_coinbase, apply_block,
  validate_and_apply_block_transactions_atomic,
}
use exfer.Consensus.Validation.Snapshot.{all_unit, snapshot_frame}
use exfer.Consensus.Validation.Succeeded.{
  after_apply-eq-ok, after_snapshot-eq-ok, after_validation-eq-ok, pay_coinbase-eq-ok,
}

-- `.map_err(|e| StateCorrupted(..))`
abbrev pub corrupted :
    {A S : Type 0}
    → (StateError → Corruption)
    → Result A StateError × S
    → Result A ValidationError × S
corrupted message (ok a, s) = (ok a, s)
corrupted message (err e, s) = (err (state_corrupted (message e)), s)

abbrev pub corrupting :
    {A S : Type 0} → (StateError → Corruption) → Exec S A StateError → Exec S A ValidationError
corrupting message call s = corrupted message (call s)

corrupting-ok :
    {A S : Type 0} (message : StateError → Corruption) (call : Exec S A StateError) (a : A)
    (s u : S)
    → call s ≡ (ok a, u)
    → corrupting message call s ≡ (ok a, u)
corrupting-ok message call a s u h = ap (corrupted message) h

module _ (sha : Sha) (smt : Smt) (setting : Setting) (block : Block) where
  abbrev height : ℕ
  height = block.header.height

  -- `for tx in block.transactions.iter().skip(1)`
  unfoldable pub unguarded_rest : List Transaction → ℕ → Exec (UtxoSet smt) ℕ ValidationError
  unguarded_rest [] total_fees = pure total_fees
  unguarded_rest (tx ∷ txs) total_fees = do
    paid ← (λ s. (validate_transaction sha smt setting tx s height, s))
    mutations ← corrupting tx_apply (apply_transaction sha smt tx height)
    unguarded_rest txs (total_fees + paid.0)

  unfoldable pub settled_fees : Transaction → ℕ → Exec (UtxoSet smt) ℕ ValidationError
  settled_fees coinbase total_fees = do
    (λ s. (reject (ltb u64_max total_fees) value_overflow, s))
    reward ← (λ s. (ok_or (checked_add_u64 (block_reward height) total_fees) reward_overflow, s))
    (λ s. (
      validate_coinbase sha (output_rules setting.deserialize_program) coinbase height reward,
      s,
    ))
    pure total_fees

  -- On a block without transactions the source panics.
  unfoldable pub apply_unguarded : List Transaction → Exec (UtxoSet smt) ℕ ValidationError
  apply_unguarded [] s = (err no_coinbase, s)
  apply_unguarded (coinbase ∷ txs) s =
      run_after (corrupting coinbase_apply (apply_transaction sha smt coinbase height) s)
        (λ mutations. unguarded_rest txs 0 >>= settled_fees coinbase)

  unfoldable pub validate_and_apply_block_transactions : Exec (UtxoSet smt) ℕ ValidationError
  unfolding apply_unguarded
  validate_and_apply_block_transactions = apply_unguarded block.transactions

  -- On a clone of the set.
  unfoldable pub validate_block_transactions : UtxoSet smt → Result ℕ ValidationError
  unfolding validate_and_apply_block_transactions
  validate_block_transactions s = (validate_and_apply_block_transactions s).0

  unguarded_round :
      (tx : Transaction) (txs : List Transaction) (s u : UtxoSet smt) (total : ℕ)
      (paid : ℕ × (ℕ × ℕ)) (m : List UtxoMutation)
      → validate_transaction sha smt setting tx s height ≡ ok paid
      → apply_transaction sha smt tx height s ≡ (ok m, u)
      → unguarded_rest (tx ∷ txs) total s ≡ unguarded_rest txs (total + paid.0) u
  unfolding unguarded_rest
  unguarded_round tx txs s u total paid m accepted applied =
      ap
        (λ r.
          run_after (r, s)
            (λ paid'. corrupting tx_apply (apply_transaction sha smt tx height) >>= λ mutations.
              unguarded_rest txs (total + paid'.0)))
        accepted
      ∙ ap (λ r. run_after r (λ mutations. unguarded_rest txs (total + paid.0)))
          (corrupting-ok tx_apply (apply_transaction sha smt tx height) m s u applied)

  apply_rest-unguarded_rest :
      (txs : List Transaction) (p p' : Applied) (s s' : UtxoSet smt)
      → apply_rest sha smt setting block txs p s ≡ (ok p', s')
      → unguarded_rest txs p.total_fees s ≡ (ok p'.total_fees, s')
  unfolding apply_rest unguarded_rest
  apply_rest-unguarded_rest [] p p' s s' h =
      let (same, ends) = ok_injective p p' s s' h in rw (same, ends) refl
  apply_rest-unguarded_rest (tx ∷ txs) p p' s s' h =
      let (paid, accepted, h1) = after_validation-eq-ok sha smt setting block tx p p' _ s s' _ h in
      let (q, noted_q, h2) = after_snapshot-eq-ok sha smt setting block tx p' _ s s' _ h1 in
      let (m, u, applied, h3) = after_apply-eq-ok sha smt setting block tx q p' _ s' _ h2 in
      let (_, _, _, _, fees, _) =
        snapshot_frame sha smt (λ op. Unit) tx.inputs s
          (record p { total_fees = p.total_fees + paid.0 })
          (all_unit (map spent_outpoint tx.inputs)) in
      let fees_q : q.total_fees ≡ p.total_fees + paid.0 = rw noted_q at fees in
      unguarded_round tx txs s u p.total_fees paid m accepted applied
      ∙ ap (λ n. unguarded_rest txs n u) (sym fees_q)
      ∙ apply_rest-unguarded_rest txs
          (record q { mutations = q.mutations ++ m; applied_count = q.applied_count + 1 }) p' u s'
          h3

  settle-settled_fees :
      (coinbase : Transaction) (p : Applied) (u s' : UtxoSet smt) (a : Answer sha smt setting block)
      → settle sha smt setting block coinbase (ok p, u) ≡ (ok a, s')
      → settled_fees coinbase p.total_fees u ≡ (ok a.0, s')
  unfolding settle settled_fees
  settle-settled_fees coinbase p u s' a h = elim (Bool-cases (ltb u64_max p.total_fees)) [
    | inl large ↦ absurd (cc (rw large at h))
    | inr small ↦
        let (reward, sum, passed, same, ends) =
          pay_coinbase-eq-ok sha smt setting block coinbase p _ u s' a (rw small at h) in
        rw (settled_fees, small, sum, passed) (rw (← same, ends) refl)
  ]

  settled_loop :
      (coinbase : Transaction) (txs : List Transaction) (p : Applied) (u s' : UtxoSet smt)
      (a : Answer sha smt setting block) (looped : Result Applied ValidationError × UtxoSet smt)
      → apply_rest sha smt setting block txs p u ≡ looped
      → settle sha smt setting block coinbase looped ≡ (ok a, s')
      → run_after (unguarded_rest txs p.total_fees u) (settled_fees coinbase) ≡ (ok a.0, s')
  unfolding settle
  settled_loop coinbase txs p u s' a (err e, v) k h = cc
  settled_loop coinbase txs p u s' a (ok q, v) k h =
      rw (apply_rest-unguarded_rest txs p q u v k) (settle-settled_fees coinbase q v s' a h)

  after_coinbase-unguarded :
      (coinbase : Transaction) (txs : List Transaction)
      (r : Result (List UtxoMutation) StateError × UtxoSet smt) (s' : UtxoSet smt)
      (a : Answer sha smt setting block)
      → after_coinbase sha smt setting block coinbase txs r ≡ (ok a, s')
      → run_after
          (corrupted coinbase_apply r)
          (λ mutations. unguarded_rest txs 0 >>= settled_fees coinbase)
        ≡ (ok a.0, s')
  unfolding after_coinbase
  after_coinbase-unguarded coinbase txs (err e, u) s' a h = cc
  after_coinbase-unguarded coinbase txs (ok m, u) s' a h =
      let start : Applied = record {
        mutations = m;
        spent_utxos = [];
        spent_utxos_bytes = 0;
        applied_count = 1;
        total_fees = 0;
      } in
      settled_loop coinbase txs start u s' a (apply_rest sha smt setting block txs start u) refl h

  apply_block-apply_unguarded :
      (txs : List Transaction) (s s' : UtxoSet smt) (a : Answer sha smt setting block)
      → apply_block sha smt setting block txs s ≡ (ok a, s')
      → apply_unguarded txs s ≡ (ok a.0, s')
  unfolding apply_block apply_unguarded
  apply_block-apply_unguarded [] s s' a h = cc
  apply_block-apply_unguarded (coinbase ∷ txs) s s' a h =
      after_coinbase-unguarded coinbase txs _ s' a h

  -- A block that validate_and_apply_block_transactions_atomic accepts is accepted by
  -- validate_and_apply_block_transactions, which has no bound on the entries that it must keep for a
  -- rollback, with the same fees and the same set afterwards; and validate_block_transactions, on a
  -- clone of the set, gives these fees.
  pub unguarded_agrees :
      (s s' : UtxoSet smt) (a : ℕ × List UtxoMutation)
      → validate_and_apply_block_transactions_atomic sha smt setting block s ≡ (ok a, s')
      → (validate_and_apply_block_transactions s ≡ (ok a.0, s'))
        × (validate_block_transactions s ≡ ok a.0)
  unfolding validate_and_apply_block_transactions_atomic validate_and_apply_block_transactions
      validate_block_transactions
  unguarded_agrees s s' a h =
      let same = apply_block-apply_unguarded block.transactions s s' a h in
      (same, ap (λ r. r.0) same)
