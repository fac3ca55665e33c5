-- ===== src/Consensus/Validation/Whole.antt =====
-- consensus/validation.rs: the coinbase of a block that is applied, and the block as a whole.
use exfer.Common.{
  ℕ, ◌+◌, ◌≡◌, refl, sym, ◌∙◌, arith, true, false, Bool-cases, inl, inr, Option, none, some, List,
  [], ◌∷◌, All, append-nil, ltb, u64_max, checked_add_u64, Result, ok, err,
}
use mathlib.Core.Path.{subst}
use exfer.Common.Exec.{ok_injective}
use exfer.Types.Hash.{Sha}
use exfer.Types.Transaction.{Transaction, is_coinbase}
use exfer.Types.Block.{Block}
use exfer.Chain.Smt.{Smt}
use exfer.Chain.State.Defs.{UtxoSet, UtxoMutation, StateError, collect_spent_utxos}
use exfer.Chain.State.Apply.{apply_transaction, undo_transaction}
use exfer.Chain.State.Lookup.{AllSerialize}
use exfer.Chain.State.Undo.{log_spends}
use exfer.Consensus.Reward.{block_reward}
use exfer.Consensus.Validation.Defs.{ValidationError, value_overflow, reward_overflow}
use exfer.Consensus.Validation.Header.{spent_by}
use exfer.Consensus.Validation.Distinct.{IsDistinct}
use exfer.Consensus.Validation.Coinbase.{validate_coinbase, validate_coinbase_lem, total_output}
use exfer.Consensus.Validation.Spendable.{output_rules}
use exfer.Consensus.Validation.Witness.{Setting}
use exfer.Consensus.Validation.Undo.{apply_all}
use exfer.Consensus.Validation.Apply.{
  Applied, Outcome, roll_back, Answer, answer, pay_coinbase, settle, after_coinbase, apply_block,
  validate_and_apply_block_transactions_atomic,
}
use exfer.Consensus.Validation.Corrupted.{coinbase_undone-IsCorrupted}
use exfer.Consensus.Validation.Atomic.{
  IsSafe, Reached, IsLooped, roll_back_plain, apply_rest-IsLooped,
}

module _ (sha : Sha) (smt : Smt) (setting : Setting) (block : Block) where
  -- All transactions of the block have been applied, in order, and its coinbase creates the reward
  -- of its height and the fees.
  pub record IsApplied (s : UtxoSet smt) (coinbase : Transaction)
      (answer : Answer sha smt setting block) (s' : UtxoSet smt) : Type 0 where
    pub log : apply_all sha smt block.transactions block.header.height s ≡ (ok answer.1, s')
    pub minted : total_output coinbase.outputs ≡ block_reward block.header.height + answer.0

  abbrev pub IsAtomic :
      UtxoSet smt → Transaction → Outcome sha smt (Answer sha smt setting block) → Type 0
  IsAtomic s coinbase (ok answer, s') = IsApplied s coinbase answer s'
  IsAtomic s coinbase (err e, s') = IsSafe sha smt s (e, s')

  module _ (s : UtxoSet smt) (fits : AllSerialize sha smt s)
      (distinct : IsDistinct (spent_by block.transactions)) where
    rolled :
        (p : Applied) (now : UtxoSet smt) (e : ValidationError)
        → Reached sha smt block.header.height s block.transactions p now
        → IsSafe sha smt s (roll_back sha smt block p e now)
    rolled p now e reached =
        roll_back_plain sha smt block s fits distinct block.transactions [] p now e
          (sym (append-nil block.transactions)) reached

    answer-IsAtomic :
        (coinbase : Transaction) (p : Applied) (now : UtxoSet smt) (reward : ℕ)
        (checked : Result (Unit {0}) ValidationError)
        → validate_coinbase sha
            (output_rules setting.deserialize_program)
            coinbase
            block.header.height
            reward
          ≡ checked
        → reward ≡ block_reward block.header.height + p.total_fees
        → Reached sha smt block.header.height s block.transactions p now
        → IsAtomic s coinbase (answer sha smt setting block p checked now)
    unfolding answer
    answer-IsAtomic coinbase p now reward (err e) h sum reached = rolled p now e reached
    answer-IsAtomic coinbase p now reward (ok done) h sum reached =
        let (_, _, total, _, _) =
          validate_coinbase_lem sha (output_rules setting.deserialize_program) coinbase
            block.header.height reward h in
        record { log = reached.log; minted = total ∙ sum }

    pay_coinbase-IsAtomic :
        (coinbase : Transaction) (p : Applied) (now : UtxoSet smt) (expected : Option ℕ)
        → checked_add_u64 (block_reward block.header.height) p.total_fees ≡ expected
        → Reached sha smt block.header.height s block.transactions p now
        → IsAtomic s coinbase (pay_coinbase sha smt setting block coinbase p expected now)
    unfolding pay_coinbase
    pay_coinbase-IsAtomic coinbase p now none h reached = rolled p now reward_overflow reached
    pay_coinbase-IsAtomic coinbase p now (some reward) h reached =
        answer-IsAtomic coinbase p now reward _ refl (ground (arith, h)) reached

    settle-IsAtomic :
        (coinbase : Transaction) (looped : Result Applied ValidationError × UtxoSet smt)
        → IsLooped sha smt block s fits distinct looped
        → IsAtomic s coinbase (settle sha smt setting block coinbase looped)
    unfolding settle
    settle-IsAtomic coinbase (err e, now) h = h
    settle-IsAtomic coinbase (ok p, now) h = elim (Bool-cases (ltb u64_max p.total_fees)) [
      | inl large ↦ rw large (rolled p now value_overflow h)
      | inr small ↦ rw small (pay_coinbase-IsAtomic coinbase p now _ refl h)
    ]

    after_coinbase-IsAtomic :
        (coinbase : Transaction) (txs : List Transaction)
        (r : Result (List UtxoMutation) StateError × UtxoSet smt)
        → apply_transaction sha smt coinbase block.header.height s ≡ r
        → block.transactions ≡ coinbase ∷ txs
        → is_coinbase coinbase ≡ true
        → All (λ tx. is_coinbase tx ≡ false) txs
        → IsAtomic s coinbase (after_coinbase sha smt setting block coinbase txs r)
    unfolding after_coinbase apply_all collect_spent_utxos
    after_coinbase-IsAtomic coinbase txs (err e, now) h whole minted others =
        inl (coinbase_undone-IsCorrupted sha smt e (undo_transaction sha smt coinbase [] now))
    after_coinbase-IsAtomic coinbase txs (ok m, now) h whole minted others =
        let (spent, s1, spending, collected) =
          log_spends sha smt coinbase block.header.height s now m h in
        let (no_log, same) = ok_injective [] spent s s1 (rw minted at spending) in
        settle-IsAtomic coinbase _ (
          apply_rest-IsLooped sha smt block s fits distinct setting txs (coinbase ∷ []) _ now whole
            others
            (record {
              log = rw (apply_all, h, append-nil m) refl;
              spent = sym (collected ∙ rw (← no_log) refl);
              count = refl;
            }))

  -- validate_and_apply_block_transactions_atomic on a block whose first transaction is a coinbase and
  -- whose others are not, with no outpoint twice among all inputs, and on a set all of whose outputs
  -- serialize. On success, every transaction has been applied in order, the answer has the joint log,
  -- and the coinbase outputs sum to the reward of the height plus the fees in the answer. On an error
  -- other than StateCorrupted, every lookup in the set is as it was before the call.
  pub apply_block-IsAtomic :
      (s : UtxoSet smt) (coinbase : Transaction) (txs : List Transaction)
      → block.transactions ≡ coinbase ∷ txs
      → is_coinbase coinbase ≡ true
      → All (λ tx. is_coinbase tx ≡ false) txs
      → IsDistinct (spent_by block.transactions)
      → AllSerialize sha smt s
      → IsAtomic s coinbase (validate_and_apply_block_transactions_atomic sha smt setting block s)
  unfolding validate_and_apply_block_transactions_atomic apply_block
  apply_block-IsAtomic s coinbase txs whole minted others distinct fits =
      subst (λ l. IsAtomic s coinbase (apply_block sha smt setting block l s)) (sym whole)
        (after_coinbase-IsAtomic s fits distinct coinbase txs _ refl whole minted others)
