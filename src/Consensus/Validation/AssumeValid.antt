-- ===== src/Consensus/Validation/AssumeValid.antt =====
-- consensus/validation.rs: applying the transactions of a trusted block.
use exfer.Common.{
  ℕ, ◌+◌, Option, none, some, List, [], ◌∷◌, ◌++◌, length, drop, ltb, if◌then◌else◌, u64_max,
  saturating_add_u64, checked_sub_u128, saturating_add_u128, Result, ok, err,
}
use exfer.Common.Exec.{Exec}
use exfer.Types.Hash.{Sha}
use exfer.Types.Transaction.{TxInput, Transaction}
use exfer.Types.Block.{Block}
use exfer.Chain.Smt.{Smt}
use exfer.Chain.State.Defs.{UtxoSet, UtxoMutation, StateError, get}
use exfer.Chain.State.Apply.{
  spent_outpoint, apply_transaction, undo_transaction, undo_partial_transaction,
}
use exfer.Consensus.Validation.Defs.{
  ValidationError, no_coinbase, block_too_large, value_overflow, state_corrupted, missing_input,
  outputs_exceed_inputs,
}
use exfer.Consensus.Validation.Coinbase.{total_output}
use exfer.Consensus.Validation.Undo.{undo_applied_transactions}
use exfer.Consensus.Validation.Apply.{
  Applied, max_spent_utxos_size, entry_bytes, with_spent, Outcome, Failure, failed, coinbase_undone,
  roll_back, undone_part,
}

module _ (sha : Sha) (smt : Smt) where
  -- The inputs of a transaction with the sum of their values, or an error with what was pushed.
  unfoldable pub trusted_snapshot :
      List TxInput → UtxoSet smt → ℕ → Applied → Result (ℕ × Applied) (ValidationError × Applied)
  trusted_snapshot [] s input_sum p = ok (input_sum, p)
  trusted_snapshot (i ∷ is) s input_sum p = elim (get smt (spent_outpoint i) s) [
    | none ↦ err (state_corrupted (missing_input (spent_outpoint i)), p)
    | some entry ↦
        let size = saturating_add_u64 p.spent_utxos_bytes (entry_bytes entry) in
        let rest =
          trusted_snapshot is s (saturating_add_u128 input_sum entry.output.value)
            (with_spent (spent_outpoint i) entry p) in
        if ltb max_spent_utxos_size size then err (block_too_large size, p) else rest
  ]

  unfoldable pub outputs_exceeded : Result (Unit {0}) StateError × UtxoSet smt → Failure sha smt
  outputs_exceeded (ok done, s) = (value_overflow, s)
  outputs_exceeded (err undo_err, s) = (state_corrupted (outputs_exceed_inputs undo_err), s)

  module _ (block : Block) where
    abbrev pub TrustedLoop : Type 0
    TrustedLoop = Applied → UtxoSet smt → Outcome sha smt Applied

    -- What follows the call of `apply_transaction`; `start` is the number of entries before it.
    unfoldable pub after_trusted_apply :
        Transaction
        → ℕ
        → Applied
        → TrustedLoop
        → Result (List UtxoMutation) StateError × UtxoSet smt
        → Outcome sha smt Applied
    after_trusted_apply tx start p next (ok m, s) =
        next (record p { mutations = p.mutations ++ m; applied_count = p.applied_count + 1 }) s
    after_trusted_apply tx start p next (err e, s) = failed sha smt (
        undone_part sha smt block p e
          (undo_partial_transaction sha smt tx (drop start p.spent_utxos) s))

    unfoldable pub after_fee :
        Transaction → ℕ → TrustedLoop → Option ℕ → Applied → UtxoSet smt → Outcome sha smt Applied
    after_fee tx start next none p s =
        failed sha smt (
          outputs_exceeded
            (undo_applied_transactions sha smt block p.applied_count p.spent_utxos s))
    after_fee tx start next (some fee) p s =
        after_trusted_apply tx start
          (record p { total_fees = saturating_add_u128 p.total_fees fee }) next
          (apply_transaction sha smt tx block.header.height s)

    unfoldable pub after_trusted_snapshot :
        Transaction
        → ℕ
        → TrustedLoop
        → Result (ℕ × Applied) (ValidationError × Applied)
        → UtxoSet smt
        → Outcome sha smt Applied
    after_trusted_snapshot tx start next (err e) s =
        failed sha smt (roll_back sha smt block e.1 e.0 s)
    after_trusted_snapshot tx start next (ok r) s =
        after_fee tx start next (checked_sub_u128 r.0 (total_output tx.outputs)) r.1 s

    -- `for tx in block.transactions.iter().skip(1)`
    unfoldable pub trusted_rest : List Transaction → TrustedLoop
    trusted_rest [] p s = (ok p, s)
    trusted_rest (tx ∷ txs) p s =
        after_trusted_snapshot tx (length p.spent_utxos) (trusted_rest txs)
          (trusted_snapshot tx.inputs s 0 p) s

    abbrev pub TrustedAnswer : Type 0
    TrustedAnswer = ℕ × List UtxoMutation

    unfoldable pub trusted_settle :
        Result Applied ValidationError × UtxoSet smt → Outcome sha smt TrustedAnswer
    trusted_settle (err e, s) = (err e, s)
    trusted_settle (ok p, s) =
        if ltb u64_max p.total_fees
        then failed sha smt (roll_back sha smt block p value_overflow s)
        else (ok (p.total_fees, p.mutations), s)

    unfoldable pub after_trusted_coinbase :
        Transaction
        → List Transaction
        → Result (List UtxoMutation) StateError × UtxoSet smt
        → Outcome sha smt TrustedAnswer
    after_trusted_coinbase coinbase txs (err e, s) =
        failed sha smt (coinbase_undone sha smt e (undo_transaction sha smt coinbase [] s))
    after_trusted_coinbase coinbase txs (ok m, s) = trusted_settle (
        trusted_rest txs
          (record {
            mutations = m;
            spent_utxos = [];
            spent_utxos_bytes = 0;
            applied_count = 1;
            total_fees = 0;
          })
          s)

    -- On a block without transactions the source panics.
    unfoldable pub apply_trusted :
        List Transaction → Exec (UtxoSet smt) TrustedAnswer ValidationError
    apply_trusted [] s = (err no_coinbase, s)
    apply_trusted (coinbase ∷ txs) s =
        after_trusted_coinbase coinbase txs
          (apply_transaction sha smt coinbase block.header.height s)

    unfoldable pub apply_block_transactions_assume_valid :
        Exec (UtxoSet smt) TrustedAnswer ValidationError
    unfolding apply_trusted
    apply_block_transactions_assume_valid = apply_trusted block.transactions
