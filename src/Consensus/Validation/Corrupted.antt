-- ===== src/Consensus/Validation/Corrupted.antt =====
-- consensus/validation.rs: the errors after which a set may be corrupted.
use exfer.Common.{Result, ok, err}
use exfer.Types.Hash.{Sha}
use exfer.Types.Transaction.{Transaction}
use exfer.Types.Block.{Block}
use exfer.Chain.Smt.{Smt}
use exfer.Chain.State.Defs.{UtxoSet, StateError, outpoint_key}
use exfer.Chain.State.Apply.{undo_partial_transaction}
use exfer.Consensus.Validation.Defs.{ValidationError, state_corrupted}
use exfer.Consensus.Validation.Undo.{spent_entries, undo_applied_transactions}
use exfer.Consensus.Validation.Apply.{
  Applied, undone_rest, coinbase_undone, undone_part, apply_failed,
}

abbrev pub IsCorrupted : ValidationError → Type 0
IsCorrupted (state_corrupted c) = Unit
IsCorrupted _ = ⊥

module _ (sha : Sha) (smt : Smt) where
  undone_rest-IsCorrupted :
      (e : StateError) (r : Result (Unit {0}) StateError × UtxoSet smt)
      → IsCorrupted (undone_rest sha smt e r).0
  unfolding undone_rest
  undone_rest-IsCorrupted e (ok done, u) = tt
  undone_rest-IsCorrupted e (err x, u) = tt

  pub coinbase_undone-IsCorrupted :
      (e : StateError) (r : Result (Unit {0}) StateError × UtxoSet smt)
      → IsCorrupted (coinbase_undone sha smt e r).0
  unfolding coinbase_undone
  coinbase_undone-IsCorrupted e (ok done, u) = tt
  coinbase_undone-IsCorrupted e (err x, u) = tt

  undone_part-IsCorrupted :
      (block : Block) (p : Applied) (e : StateError)
      (r : Result (Unit {0}) StateError × UtxoSet smt)
      → IsCorrupted (undone_part sha smt block p e r).0
  unfolding undone_part
  undone_part-IsCorrupted block p e (ok done, u) =
      undone_rest-IsCorrupted e
        (undo_applied_transactions sha smt block p.applied_count p.spent_utxos u)
  undone_part-IsCorrupted block p e (err x, u) = tt

  pub apply_failed-IsCorrupted :
      (block : Block) (tx : Transaction) (p : Applied) (e : StateError) (u : UtxoSet smt)
      → IsCorrupted (apply_failed sha smt block tx p e u).0
  unfolding apply_failed
  apply_failed-IsCorrupted block tx p e u =
      undone_part-IsCorrupted block p e
        (undo_partial_transaction sha smt tx (spent_entries tx.inputs p.spent_utxos) u)
