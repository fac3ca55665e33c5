-- ===== src/Chain/State/Apply.antt =====
-- chain/state.rs: applying a transaction, undoing it, and undoing one that was applied in part.
use exfer.Common.{
  ℕ, ◌+◌, ◌%◌, ◌^◌, Bool, not, ◌&&◌, none, some, List, [], ◌∷◌, ◌++◌, length, ◌==◌, if◌then◌else◌,
  ok, err,
}
use exfer.Common.Map.{contains}
use exfer.Common.Exec.{Exec, run_after, ◌>>=◌, ◌>>◌, pure, fail}
use exfer.Types.Hash.{Hash256, Sha}
use exfer.Types.Transaction.{TxInput, TxOutput, Transaction, OutPoint, is_coinbase, tx_id}
use exfer.Chain.Smt.{Smt}
use exfer.Chain.State.Defs.{
  UtxoEntry, UtxoMutation, inserted, removed, StateError, input_not_found, output_not_found,
  duplicate_restore, serialization, incomplete_undo, UtxoSet, insert_utxo, remove_utxo,
  outpoint_key,
}

abbrev pub spent_outpoint : TxInput → OutPoint
spent_outpoint i = record { tx_id = i.prev_tx_id; output_index = i.output_index }

-- `OutPoint::new(tx_id, idx as u32)`
abbrev pub created_outpoint : Hash256 → ℕ → OutPoint
created_outpoint id idx = record { tx_id = id; output_index = idx % 2 ^ 32 }

module _ (sha : Sha) (smt : Smt) where
  -- `tx.tx_id()?`
  unfoldable pub id_of : Transaction → Exec (UtxoSet smt) Hash256 StateError
  id_of tx s = elim (tx_id sha tx) [ ok id ↦ (ok id, s) | err e ↦ (err (serialization e), s) ]

  unfoldable pub remove_input : TxInput → Exec (UtxoSet smt) UtxoMutation StateError
  remove_input i s =
      let (found, s') = remove_utxo sha smt (spent_outpoint i) s in
      elim found [
        | some entry ↦ (ok (removed (spent_outpoint i) entry), s')
        | none ↦ (err (input_not_found (spent_outpoint i)), s')
      ]

  -- `for input in &tx.inputs`, with the mutations that the loop pushes.
  unfoldable pub remove_inputs : List TxInput → Exec (UtxoSet smt) (List UtxoMutation) StateError
  remove_inputs [] = pure []
  remove_inputs (i ∷ is) = do m ← remove_input i; ms ← remove_inputs is; pure (m ∷ ms)

  -- `for (idx, output) in tx.outputs.iter().enumerate()`, from index `idx` on.
  unfoldable pub insert_outputs :
      Hash256 → ℕ → Bool → ℕ → List TxOutput → Exec (UtxoSet smt) (List UtxoMutation) StateError
  insert_outputs id height coinbase idx [] = pure []
  insert_outputs id height coinbase idx (o ∷ os) =
      let op = created_outpoint id idx in
      let entry : UtxoEntry = record { output = o; height = height; is_coinbase = coinbase } in
      insert_utxo sha smt op entry
      >> (do ms ← insert_outputs id height coinbase (idx + 1) os; pure (inserted op entry ∷ ms))

  unfoldable pub apply_transaction :
      Transaction → ℕ → Exec (UtxoSet smt) (List UtxoMutation) StateError
  apply_transaction tx height = do
    id ← id_of tx
    spent ← if is_coinbase tx then pure [] else remove_inputs tx.inputs
    created ← insert_outputs id height (is_coinbase tx) 0 tx.outputs
    pure (spent ++ created)

  -- `for idx in 0..tx.outputs.len()`: a missing output is an error.
  unfoldable pub remove_outputs :
      Hash256 → ℕ → List TxOutput → Exec (UtxoSet smt) (Unit {0}) StateError
  remove_outputs id idx [] s = (ok tt, s)
  remove_outputs id idx (o ∷ os) s =
      let op = created_outpoint id idx in
      let (found, s') = remove_utxo sha smt op s in
      let rest = remove_outputs id (idx + 1) os s' in
      elim found [ none ↦ (err (output_not_found op), s') | some _ ↦ rest ]

  unfoldable pub restore_inputs :
      List (OutPoint × UtxoEntry) → Exec (UtxoSet smt) (Unit {0}) StateError
  restore_inputs [] s = (ok tt, s)
  restore_inputs ((op, entry) ∷ more) s =
      let rest = run_after (insert_utxo sha smt op entry s) (λ _. restore_inputs more) in
      if contains op s.utxos then (err (duplicate_restore op), s) else rest

  unfoldable pub undo_transaction :
      Transaction → List (OutPoint × UtxoEntry) → Exec (UtxoSet smt) (Unit {0}) StateError
  undo_transaction tx prev_utxos =
      if not (is_coinbase tx) && not (length prev_utxos == length tx.inputs)
      then fail (incomplete_undo (length tx.inputs) (length prev_utxos))
      else do id ← id_of tx; remove_outputs id 0 tx.outputs; restore_inputs prev_utxos

  -- The tolerant loops of `undo_partial_transaction`.
  unfoldable pub forget_outputs : Hash256 → ℕ → List TxOutput → UtxoSet smt → UtxoSet smt
  forget_outputs id idx [] s = s
  forget_outputs id idx (o ∷ os) s =
      forget_outputs id (idx + 1) os (remove_utxo sha smt (created_outpoint id idx) s).1

  unfoldable pub restore_missing :
      List (OutPoint × UtxoEntry) → Exec (UtxoSet smt) (Unit {0}) StateError
  restore_missing [] s = (ok tt, s)
  restore_missing ((op, entry) ∷ more) s =
      let absent = run_after (insert_utxo sha smt op entry s) (λ _. restore_missing more) in
      let present = restore_missing more s in if contains op s.utxos then present else absent

  unfoldable pub undo_partial_transaction :
      Transaction → List (OutPoint × UtxoEntry) → Exec (UtxoSet smt) (Unit {0}) StateError
  undo_partial_transaction tx prev_utxos = do
    id ← id_of tx
    (λ s. (ok tt, forget_outputs id 0 tx.outputs s))
    if is_coinbase tx then pure tt else restore_missing prev_utxos
