-- ===== src/Consensus/Validation/Undo.antt =====
-- consensus/validation.rs: undoing the transactions of a block.
use exfer.Common.{ℕ, Bool, false, ◌||◌, List, [], ◌∷◌, ◌++◌, length, take, if◌then◌else◌}
use exfer.Common.Exec.{Exec, ◌>>=◌, ◌>>◌, pure}
use exfer.Types.Hash.{Sha}
use exfer.Types.Transaction.{TxInput, Transaction, OutPoint}
use exfer.Types.Block.{Block}
use exfer.Chain.Smt.{Smt}
use exfer.Chain.State.Defs.{UtxoEntry, UtxoMutation, StateError, UtxoSet, outpoint_eq}
use exfer.Chain.State.Apply.{spent_outpoint, apply_transaction, undo_transaction}

-- `tx.inputs.iter().any(|i| i.prev_tx_id == op.tx_id && i.output_index == op.output_index)`
unfoldable pub spends_outpoint : List TxInput → OutPoint → Bool
spends_outpoint [] op = false
spends_outpoint (i ∷ is) op = outpoint_eq (spent_outpoint i) op || spends_outpoint is op

-- `spent_utxos.iter().filter(..)`: the entries that a transaction spent.
unfoldable pub spent_entries :
    List TxInput → List (OutPoint × UtxoEntry) → List (OutPoint × UtxoEntry)
spent_entries is [] = []
spent_entries is (p ∷ ps) =
    let rest = spent_entries is ps in if spends_outpoint is p.0 then p ∷ rest else rest

module _ (sha : Sha) (smt : Smt) where
  -- From the last transaction to the first. An error is passed on; the source adds its own name to
  -- the message.
  unfoldable pub undo_backwards :
      List Transaction → List (OutPoint × UtxoEntry) → Exec (UtxoSet smt) (Unit {0}) StateError
  undo_backwards [] spent_utxos = pure tt
  undo_backwards (tx ∷ txs) spent_utxos = do
    undo_backwards txs spent_utxos
    undo_transaction sha smt tx (spent_entries tx.inputs spent_utxos)

  unfoldable pub undo_applied_transactions :
      Block → ℕ → List (OutPoint × UtxoEntry) → Exec (UtxoSet smt) (Unit {0}) StateError
  unfolding undo_backwards
  undo_applied_transactions block applied_count spent_utxos =
      undo_backwards (take applied_count block.transactions) spent_utxos

  unfoldable pub undo_block_transactions :
      Block → List (OutPoint × UtxoEntry) → Exec (UtxoSet smt) (Unit {0}) StateError
  unfolding undo_applied_transactions
  undo_block_transactions block spent_utxos =
      undo_applied_transactions block (length block.transactions) spent_utxos

  -- The calls that the loops over a block make as long as none fails, and the joint log.
  unfoldable pub apply_all :
      List Transaction → ℕ → Exec (UtxoSet smt) (List UtxoMutation) StateError
  apply_all [] height = pure []
  apply_all (tx ∷ txs) height = do
    mutations ← apply_transaction sha smt tx height
    more ← apply_all txs height
    pure (mutations ++ more)
