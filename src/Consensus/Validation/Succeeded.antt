-- ===== src/Consensus/Validation/Succeeded.antt =====
-- consensus/validation.rs: the steps of a block that is applied without an error.
use exfer.Common.{ℕ, ◌+◌, ◌≡◌, refl, Option, none, some, List, ◌++◌, Result, ok, err}
use exfer.Common.Exec.{ok_injective}
use exfer.Types.Hash.{Sha}
use exfer.Types.Transaction.{Transaction}
use exfer.Types.Block.{Block}
use exfer.Chain.Smt.{Smt}
use exfer.Chain.State.Defs.{UtxoSet, UtxoMutation, StateError, outpoint_key}
use exfer.Chain.State.Apply.{apply_transaction}
use exfer.Consensus.Validation.Defs.{ValidationError}
use exfer.Consensus.Validation.Coinbase.{validate_coinbase}
use exfer.Consensus.Validation.Spendable.{output_rules}
use exfer.Consensus.Validation.Witness.{Setting}
use exfer.Consensus.Validation.Apply.{
  Applied, snapshot, after_apply, after_snapshot, after_validation, Loop, Answer, answer,
  pay_coinbase,
}

module _ (sha : Sha) (smt : Smt) (setting : Setting) (block : Block) where
  abbrev height : ℕ
  height = block.header.height

  pub after_apply-eq-ok :
      (tx : Transaction) (p p' : Applied) (next : Loop sha smt setting block) (s' : UtxoSet smt)
      (r : Result (List UtxoMutation) StateError × UtxoSet smt)
      → after_apply sha smt setting block tx p next r ≡ (ok p', s')
      → (m : List UtxoMutation) × (u : UtxoSet smt) × (r ≡ (ok m, u))
        × (next (record p { mutations = p.mutations ++ m; applied_count = p.applied_count + 1 }) u
            ≡ (ok p', s'))
  unfolding after_apply
  after_apply-eq-ok tx p p' next s' (ok m, u) h = (m, u, refl, h)
  after_apply-eq-ok tx p p' next s' (err e, u) h = cc

  pub after_snapshot-eq-ok :
      (tx : Transaction) (p' : Applied) (next : Loop sha smt setting block) (s s' : UtxoSet smt)
      (r : Result Applied (ℕ × Applied))
      → after_snapshot sha smt setting block tx next r s ≡ (ok p', s')
      → (q : Applied) × (r ≡ ok q)
        × (after_apply sha smt setting block tx q next (apply_transaction sha smt tx height s)
            ≡ (ok p', s'))
  unfolding after_snapshot
  after_snapshot-eq-ok tx p' next s s' (ok q) h = (q, refl, h)
  after_snapshot-eq-ok tx p' next s s' (err e) h = cc

  pub after_validation-eq-ok :
      (tx : Transaction) (p p' : Applied) (next : Loop sha smt setting block) (s s' : UtxoSet smt)
      (r : Result (ℕ × (ℕ × ℕ)) ValidationError)
      → after_validation sha smt setting block tx next r p s ≡ (ok p', s')
      → (paid : ℕ × (ℕ × ℕ)) × (r ≡ ok paid)
        × (after_snapshot sha smt setting block tx next
              (snapshot sha smt tx.inputs s (record p { total_fees = p.total_fees + paid.0 }))
              s
            ≡ (ok p', s'))
  unfolding after_validation
  after_validation-eq-ok tx p p' next s s' (ok paid) h = (paid, refl, h)
  after_validation-eq-ok tx p p' next s s' (err e) h = cc

  answer-eq-ok :
      (p : Applied) (checked : Result (Unit {0}) ValidationError) (s s' : UtxoSet smt)
      (a : Answer sha smt setting block)
      → answer sha smt setting block p checked s ≡ (ok a, s')
      → (checked ≡ ok tt) × ((p.total_fees, p.mutations) ≡ a) × (s ≡ s')
  unfolding answer
  answer-eq-ok p (ok done) s s' a h =
      let (same, ends) = ok_injective (p.total_fees, p.mutations) a s s' h in (refl, same, ends)
  answer-eq-ok p (err e) s s' a h = cc

  pub pay_coinbase-eq-ok :
      (coinbase : Transaction) (p : Applied) (expected : Option ℕ) (s s' : UtxoSet smt)
      (a : Answer sha smt setting block)
      → pay_coinbase sha smt setting block coinbase p expected s ≡ (ok a, s')
      → (reward : ℕ) × (expected ≡ some reward)
        × (validate_coinbase sha (output_rules setting.deserialize_program) coinbase height reward
            ≡ ok tt)
        × ((p.total_fees, p.mutations) ≡ a)
        × (s ≡ s')
  unfolding pay_coinbase
  pay_coinbase-eq-ok coinbase p (some reward) s s' a h =
      let (passed, same, ends) = answer-eq-ok p _ s s' a h in (reward, refl, passed, same, ends)
  pay_coinbase-eq-ok coinbase p none s s' a h = cc
