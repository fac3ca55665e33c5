-- ===== src/Consensus/Validation/Apply.antt =====
-- consensus/validation.rs: applying the transactions of a block, with rollback.
use exfer.Common.{
  ℕ, ◌+◌, Option, none, some, List, [], ◌∷◌, ◌++◌, length, ltb, if◌then◌else◌, u64_max,
  checked_add_u64, saturating_add_u64, Bytes, Result, ok, err,
}
use exfer.Common.Exec.{Exec}
use exfer.Types.Hash.{Sha}
use exfer.Types.Cursor.{SerError}
use exfer.Types.Transaction.{TxInput, Transaction, OutPoint, serialize_output}
use exfer.Types.Block.{Block}
use exfer.Chain.Smt.{Smt}
use exfer.Chain.State.Defs.{UtxoSet, UtxoEntry, UtxoMutation, StateError, get}
use exfer.Chain.State.Apply.{
  spent_outpoint, apply_transaction, undo_transaction, undo_partial_transaction,
}
use exfer.Consensus.Reward.{block_reward}
use exfer.Consensus.Validation.Defs.{
  ValidationError, no_coinbase, block_too_large, value_overflow, reward_overflow, state_corrupted,
  coinbase_apply, coinbase_rollback, tx_apply, tx_undo, tx_rollback, rollback,
}
use exfer.Consensus.Validation.Coinbase.{validate_coinbase}
use exfer.Consensus.Validation.Spendable.{output_rules}
use exfer.Consensus.Validation.Witness.{Setting}
use exfer.Consensus.Validation.Transaction.{validate_transaction}
use exfer.Consensus.Validation.Undo.{spent_entries, undo_applied_transactions}

-- types/mod.rs
abbrev pub max_spent_utxos_size : ℕ
max_spent_utxos_size = 16_777_216

-- The local variables of the loop.
pub record Applied : Type 0 where
  pub mutations : List UtxoMutation
  pub spent_utxos : List (OutPoint × UtxoEntry)
  pub spent_utxos_bytes : ℕ
  pub applied_count : ℕ
  pub total_fees : ℕ

-- `.map(|b| b.len()).unwrap_or(0)`
abbrev pub length_or_zero : Result Bytes SerError → ℕ
length_or_zero (ok bytes) = length bytes
length_or_zero (err e) = 0

abbrev pub entry_bytes : UtxoEntry → ℕ
entry_bytes entry = 53 + length_or_zero (serialize_output entry.output)

unfoldable pub with_spent : OutPoint → UtxoEntry → Applied → Applied
with_spent op entry p = record p {
  spent_utxos = p.spent_utxos ++ (op, entry) ∷ [];
  spent_utxos_bytes = saturating_add_u64 p.spent_utxos_bytes (entry_bytes entry);
}

module _ (sha : Sha) (smt : Smt) where
  -- The inputs of a transaction before it is applied. Above the cap the error has what was pushed.
  unfoldable pub snapshot : List TxInput → UtxoSet smt → Applied → Result Applied (ℕ × Applied)
  snapshot [] s p = ok p
  snapshot (i ∷ is) s p = elim (get smt (spent_outpoint i) s) [
    | none ↦ snapshot is s p
    | some entry ↦
        let size = saturating_add_u64 p.spent_utxos_bytes (entry_bytes entry) in
        let rest = snapshot is s (with_spent (spent_outpoint i) entry p) in
        if ltb max_spent_utxos_size size then err (size, p) else rest
  ]

  abbrev pub Outcome : Type 0 → Type 0
  Outcome A = Result A ValidationError × UtxoSet smt

  -- An error, with the set that it leaves.
  abbrev pub Failure : Type 0
  Failure = ValidationError × UtxoSet smt

  abbrev pub failed : {A : Type 0} → Failure → Outcome A
  failed (e, s) = (err e, s)

  unfoldable pub rolled_back :
      ValidationError → Result (Unit {0}) StateError × UtxoSet smt → Failure
  rolled_back e (ok done, s) = (e, s)
  rolled_back e (err undo_err, s) = (state_corrupted (rollback e undo_err), s)

  unfoldable pub undone_rest : StateError → Result (Unit {0}) StateError × UtxoSet smt → Failure
  undone_rest e (ok done, s) = (state_corrupted (tx_apply e), s)
  undone_rest e (err undo_err, s) = (state_corrupted (tx_rollback e undo_err), s)

  unfoldable pub coinbase_undone : StateError → Result (Unit {0}) StateError × UtxoSet smt → Failure
  coinbase_undone e (ok done, s) = (state_corrupted (coinbase_apply e), s)
  coinbase_undone e (err undo_err, s) = (state_corrupted (coinbase_rollback e undo_err), s)

  module _ (block : Block) where
    -- The rollback of each error but those of `apply_transaction`.
    unfoldable pub roll_back : Applied → ValidationError → UtxoSet smt → Failure
    roll_back p e s =
        rolled_back e (undo_applied_transactions sha smt block p.applied_count p.spent_utxos s)

    unfoldable pub undone_part :
        Applied → StateError → Result (Unit {0}) StateError × UtxoSet smt → Failure
    undone_part p e (ok done, s) =
        undone_rest e (undo_applied_transactions sha smt block p.applied_count p.spent_utxos s)
    undone_part p e (err partial_err, s) = (state_corrupted (tx_undo e partial_err), s)

    -- A transaction that was applied in part is undone, and then those before it.
    unfoldable pub apply_failed : Transaction → Applied → StateError → UtxoSet smt → Failure
    apply_failed tx p e s =
        undone_part p e
          (undo_partial_transaction sha smt tx (spent_entries tx.inputs p.spent_utxos) s)

  module _ (setting : Setting) (block : Block) where
    abbrev pub Loop : Type 0
    Loop = Applied → UtxoSet smt → Outcome Applied

    -- What follows the snapshot, and what follows the call of `apply_transaction`.
    unfoldable pub after_apply :
        Transaction
        → Applied
        → Loop
        → Result (List UtxoMutation) StateError × UtxoSet smt
        → Outcome Applied
    after_apply tx p next (ok m, s) =
        next (record p { mutations = p.mutations ++ m; applied_count = p.applied_count + 1 }) s
    after_apply tx p next (err e, s) = failed (apply_failed block tx p e s)

    unfoldable pub after_snapshot :
        Transaction → Loop → Result Applied (ℕ × Applied) → UtxoSet smt → Outcome Applied
    after_snapshot tx next (err e) s = failed (roll_back block e.1 (block_too_large e.0) s)
    after_snapshot tx next (ok p) s =
        after_apply tx p next (apply_transaction sha smt tx block.header.height s)

    unfoldable pub after_validation :
        Transaction → Loop → Result (ℕ × (ℕ × ℕ)) ValidationError → Loop
    after_validation tx next (err e) p s = failed (roll_back block p e s)
    after_validation tx next (ok r) p s =
        after_snapshot tx next (snapshot tx.inputs s (record p { total_fees = p.total_fees + r.0 }))
          s

    -- `for tx in block.transactions.iter().skip(1)`
    unfoldable pub apply_rest : List Transaction → Loop
    apply_rest [] p s = (ok p, s)
    apply_rest (tx ∷ txs) p s =
        after_validation tx (apply_rest txs)
          (validate_transaction sha smt setting tx s block.header.height) p s

    abbrev pub Answer : Type 0
    Answer = ℕ × List UtxoMutation

    unfoldable pub answer :
        Applied → Result (Unit {0}) ValidationError → UtxoSet smt → Outcome Answer
    answer p (err e) s = failed (roll_back block p e s)
    answer p (ok done) s = (ok (p.total_fees, p.mutations), s)

    unfoldable pub pay_coinbase : Transaction → Applied → Option ℕ → UtxoSet smt → Outcome Answer
    pay_coinbase coinbase p none s = failed (roll_back block p reward_overflow s)
    pay_coinbase coinbase p (some expected_reward) s =
        answer p
          (validate_coinbase sha (output_rules setting.deserialize_program) coinbase
            block.header.height expected_reward)
          s

    unfoldable pub settle :
        Transaction → Result Applied ValidationError × UtxoSet smt → Outcome Answer
    settle coinbase (err e, s) = (err e, s)
    settle coinbase (ok p, s) =
        if ltb u64_max p.total_fees
        then failed (roll_back block p value_overflow s)
        else pay_coinbase coinbase p
            (checked_add_u64 (block_reward block.header.height) p.total_fees) s

    unfoldable pub after_coinbase :
        Transaction
        → List Transaction
        → Result (List UtxoMutation) StateError × UtxoSet smt
        → Outcome Answer
    after_coinbase coinbase txs (err e, s) =
        failed (coinbase_undone e (undo_transaction sha smt coinbase [] s))
    after_coinbase coinbase txs (ok m, s) = settle coinbase (
        apply_rest txs
          (record {
            mutations = m;
            spent_utxos = [];
            spent_utxos_bytes = 0;
            applied_count = 1;
            total_fees = 0;
          })
          s)

    -- A block without transactions, on which the source panics, has been refused before.
    unfoldable pub apply_block : List Transaction → Exec (UtxoSet smt) Answer ValidationError
    apply_block [] s = (err no_coinbase, s)
    apply_block (coinbase ∷ txs) s =
        after_coinbase coinbase txs (apply_transaction sha smt coinbase block.header.height s)

    unfoldable pub validate_and_apply_block_transactions_atomic :
        Exec (UtxoSet smt) Answer ValidationError
    unfolding apply_block
    validate_and_apply_block_transactions_atomic = apply_block block.transactions
