-- ===== src/Chain/State/Sync.antt =====
-- chain/state.rs: the script index stays in sync with the entries in every operation, also where it
-- ends in an error.
use exfer.Common.{
  Option-cases, Result-cases, Bool-cases, inl, inr, ℕ, ◌≡◌, refl, arith, ◌+◌, Bool, true, false,
  Option, none, some, List, [], ◌∷◌, length, if◌then◌else◌, Result, ok, err, not, ◌==◌, ◌&&◌, Bytes,
  bytes_eq,
}
use exfer.Common.Map.{lookup, contains, lookup-insert, lookup-remove, bytes_key}
use exfer.Common.Exec.{Exec, run_after, pure, fail}
use exfer.Types.Hash.{Hash256, Sha}
use exfer.Types.Transaction.{
  TxInput, TxOutput, Transaction, OutPoint, is_coinbase, serialize_output, tx_id,
}
use exfer.Chain.Smt.{Smt}
use exfer.Chain.State.Defs.{
  UtxoEntry, UtxoSet, StateError, new, insert_utxo, remove_utxo, with_entry, without_entry,
  outpoint_eq_iff, outpoint_key,
}
use exfer.Chain.State.Apply.{
  spent_outpoint, created_outpoint, id_of, remove_input, remove_inputs, insert_outputs,
  remove_outputs, restore_inputs, apply_transaction, undo_transaction, undo_partial_transaction,
  forget_outputs, restore_missing,
}
use exfer.Chain.Index.{indexed, indexed-index, indexed-unindex}

-- The entry of `op`, if there is one, pays to `script`.
unfoldable pub pays_to : Bytes → Option UtxoEntry → Bool
pays_to script none = false
pays_to script (some e) = bytes_eq e.output.script script

module _ (sha : Sha) (smt : Smt) where
  -- The index lists `op` under `script` exactly where the entry of `op` pays to `script`.
  abbrev pub IsInSync : UtxoSet smt → Type 0
  IsInSync s =
      (script : Bytes) (op : OutPoint)
      → indexed script op s.by_script ≡ pays_to script (lookup op s.utxos)

  -- A step that leaves a set in sync, whatever its result.
  abbrev pub KeepsSync : {A : Type 0} → Exec (UtxoSet smt) A StateError → Type 0
  KeepsSync m = (s : UtxoSet smt) → IsInSync s → IsInSync (m s).1

  IsInSync-with_entry :
      (op : OutPoint) (e : UtxoEntry) (bytes : Bytes) (s : UtxoSet smt)
      → lookup op s.utxos ≡ none
      → IsInSync s
      → IsInSync (with_entry sha smt op e bytes s)
  unfolding with_entry pays_to
  IsInSync-with_entry op e bytes s absent sync script j = ground (
    arith,
    sync script j,
    indexed-index e.output.script script op j s.by_script,
    lookup-insert op j e s.utxos,
    absent,
    outpoint_eq_iff op j,
  )

  IsInSync-without_entry :
      (op : OutPoint) (e : UtxoEntry) (s : UtxoSet smt)
      → lookup op s.utxos ≡ some e
      → IsInSync s
      → IsInSync (without_entry sha smt op e s)
  unfolding without_entry pays_to
  IsInSync-without_entry op e s there sync script j = ground (
    arith,
    sync script j,
    indexed-unindex e.output.script script op j s.by_script,
    lookup-remove op j s.utxos,
    there,
    outpoint_eq_iff op j,
  )

  KeepsSync-insert_utxo : (op : OutPoint) (e : UtxoEntry) → KeepsSync (insert_utxo sha smt op e)
  unfolding insert_utxo
  KeepsSync-insert_utxo op e s sync = elim (Option-cases (lookup op s.utxos)) [
    | inr (old, there) ↦ rw (insert_utxo, there) sync
    | inl absent ↦ elim (Result-cases (serialize_output e.output)) [
      | inl (bytes, fit) ↦
          rw (insert_utxo, absent, fit) (IsInSync-with_entry op e bytes s absent sync)
      | inr (x, fit) ↦ rw (insert_utxo, absent, fit) sync
    ]
  ]

  IsInSync-remove_utxo :
      (op : OutPoint) (s : UtxoSet smt) → IsInSync s → IsInSync (remove_utxo sha smt op s).1
  unfolding remove_utxo
  IsInSync-remove_utxo op s sync = elim (Option-cases (lookup op s.utxos)) [
    | inl absent ↦ rw (remove_utxo, absent) sync
    | inr (e, there) ↦ rw (remove_utxo, there) (IsInSync-without_entry op e s there sync)
  ]

  IsInSync-run_after :
      {A B : Type 0} (r : Result A StateError × UtxoSet smt)
      (f : A → Exec (UtxoSet smt) B StateError)
      → IsInSync r.1
      → ((a : A) → KeepsSync (f a))
      → IsInSync (run_after r f).1
  IsInSync-run_after (ok a, s) f sync keeps = keeps a s sync
  IsInSync-run_after (err e, s) f sync keeps = sync

  KeepsSync-unless :
      {A : Type 0} (c : Bool) (a : A) (m : Exec (UtxoSet smt) A StateError)
      → KeepsSync m
      → KeepsSync (if c then pure a else m)
  KeepsSync-unless true a m keeps s sync = sync
  KeepsSync-unless false a m keeps s sync = keeps s sync

  KeepsSync-unless_failed :
      {A : Type 0} (c : Bool) (e : StateError) (m : Exec (UtxoSet smt) A StateError)
      → KeepsSync m
      → KeepsSync (if c then fail e else m)
  KeepsSync-unless_failed true e m keeps s sync = sync
  KeepsSync-unless_failed false e m keeps s sync = keeps s sync

  KeepsSync-id_of : (tx : Transaction) → KeepsSync (id_of sha smt tx)
  unfolding id_of
  KeepsSync-id_of tx s sync = elim (Result-cases (tx_id sha tx)) [
    | inl (id, e) ↦ rw (id_of, e) sync
    | inr (x, e) ↦ rw (id_of, e) sync
  ]

  KeepsSync-remove_input : (i : TxInput) → KeepsSync (remove_input sha smt i)
  unfolding remove_input
  KeepsSync-remove_input i s sync =
      let op = spent_outpoint i in
      let less = IsInSync-remove_utxo op s sync in
      elim (Option-cases (remove_utxo sha smt op s).0) [
        | inl missing ↦ rw (remove_input, missing) less
        | inr (e, there) ↦ rw (remove_input, there) less
      ]

  KeepsSync-remove_inputs : (is : List TxInput) → KeepsSync (remove_inputs sha smt is)
  unfolding remove_inputs
  KeepsSync-remove_inputs [] s sync = sync
  KeepsSync-remove_inputs (i ∷ is) s sync =
      IsInSync-run_after (remove_input sha smt i s) _ (KeepsSync-remove_input i s sync)
        (λ m s1 sync1.
          IsInSync-run_after (remove_inputs sha smt is s1) _ (KeepsSync-remove_inputs is s1 sync1)
            (λ ms s2 sync2. sync2))

  KeepsSync-insert_outputs :
      (id : Hash256) (height : ℕ) (coinbase : Bool) (idx : ℕ) (os : List TxOutput)
      → KeepsSync (insert_outputs sha smt id height coinbase idx os)
  unfolding insert_outputs
  KeepsSync-insert_outputs id height coinbase idx [] s sync = sync
  KeepsSync-insert_outputs id height coinbase idx (o ∷ os) s sync =
      let op = created_outpoint id idx in
      let entry : UtxoEntry = record { output = o; height = height; is_coinbase = coinbase } in
      IsInSync-run_after (insert_utxo sha smt op entry s) _ (KeepsSync-insert_utxo op entry s sync)
        (λ u s1 sync1.
          IsInSync-run_after (insert_outputs sha smt id height coinbase (idx + 1) os s1) _
            (KeepsSync-insert_outputs id height coinbase (idx + 1) os s1 sync1)
            (λ ms s2 sync2. sync2))

  KeepsSync-remove_outputs :
      (id : Hash256) (idx : ℕ) (os : List TxOutput) → KeepsSync (remove_outputs sha smt id idx os)
  unfolding remove_outputs
  KeepsSync-remove_outputs id idx [] s sync = sync
  KeepsSync-remove_outputs id idx (o ∷ os) s sync =
      let op = created_outpoint id idx in
      let less = IsInSync-remove_utxo op s sync in
      elim (Option-cases (remove_utxo sha smt op s).0) [
        | inl missing ↦ rw (remove_outputs, missing) less
        | inr (e, there) ↦
            rw (remove_outputs, there) (KeepsSync-remove_outputs id (idx + 1) os _ less)
      ]

  IsInSync-forget_outputs :
      (id : Hash256) (idx : ℕ) (os : List TxOutput) (s : UtxoSet smt)
      → IsInSync s
      → IsInSync (forget_outputs sha smt id idx os s)
  unfolding forget_outputs
  IsInSync-forget_outputs id idx [] s sync = sync
  IsInSync-forget_outputs id idx (o ∷ os) s sync =
      IsInSync-forget_outputs id (idx + 1) os _
        (IsInSync-remove_utxo (created_outpoint id idx) s sync)

  KeepsSync-restore_inputs :
      (spent : List (OutPoint × UtxoEntry)) → KeepsSync (restore_inputs sha smt spent)
  unfolding restore_inputs
  KeepsSync-restore_inputs [] s sync = sync
  KeepsSync-restore_inputs ((op, e) ∷ more) s sync = elim (Bool-cases (contains op s.utxos)) [
    | inl there ↦ rw (restore_inputs, there) sync
    | inr absent ↦
        rw (restore_inputs, absent)
          (IsInSync-run_after (insert_utxo sha smt op e s) _ (KeepsSync-insert_utxo op e s sync)
            (λ u. KeepsSync-restore_inputs more))
  ]

  KeepsSync-restore_missing :
      (spent : List (OutPoint × UtxoEntry)) → KeepsSync (restore_missing sha smt spent)
  unfolding restore_missing
  KeepsSync-restore_missing [] s sync = sync
  KeepsSync-restore_missing ((op, e) ∷ more) s sync = elim (Bool-cases (contains op s.utxos)) [
    | inl there ↦ rw (restore_missing, there) (KeepsSync-restore_missing more s sync)
    | inr absent ↦
        rw (restore_missing, absent)
          (IsInSync-run_after (insert_utxo sha smt op e s) _ (KeepsSync-insert_utxo op e s sync)
            (λ u. KeepsSync-restore_missing more))
  ]

  -- In the empty set the index is in sync.
  pub IsInSync-new : IsInSync (new smt)
  unfolding new indexed lookup pays_to
  IsInSync-new script op = refl

  -- `apply_transaction` leaves a set in sync that was in sync, also where it ends in an error.
  pub IsInSync-apply_transaction :
      (tx : Transaction) (height : ℕ) (s : UtxoSet smt)
      → IsInSync s
      → IsInSync (apply_transaction sha smt tx height s).1
  unfolding apply_transaction
  IsInSync-apply_transaction tx height s sync =
      IsInSync-run_after (id_of sha smt tx s) _ (KeepsSync-id_of tx s sync) (λ id s0 sync0.
        IsInSync-run_after
          ((if is_coinbase tx then pure [] else remove_inputs sha smt tx.inputs) s0) _
          (KeepsSync-unless (is_coinbase tx) [] _ (KeepsSync-remove_inputs tx.inputs) s0 sync0)
          (λ spent s1 sync1.
            IsInSync-run_after (insert_outputs sha smt id height (is_coinbase tx) 0 tx.outputs s1) _
              (KeepsSync-insert_outputs id height (is_coinbase tx) 0 tx.outputs s1 sync1)
              (λ created s2 sync2. sync2)))

  -- `undo_transaction` leaves a set in sync that was in sync, whatever it is given as the spent
  -- entries, also where it ends in an error.
  pub IsInSync-undo_transaction :
      (tx : Transaction) (spent : List (OutPoint × UtxoEntry)) (s : UtxoSet smt)
      → IsInSync s
      → IsInSync (undo_transaction sha smt tx spent s).1
  unfolding undo_transaction
  IsInSync-undo_transaction tx spent s sync =
      KeepsSync-unless_failed (not (is_coinbase tx) && not (length spent == length tx.inputs)) _ _
        (λ t sync_t.
          IsInSync-run_after (id_of sha smt tx t) _ (KeepsSync-id_of tx t sync_t) (λ id s0 sync0.
            IsInSync-run_after (remove_outputs sha smt id 0 tx.outputs s0) _
              (KeepsSync-remove_outputs id 0 tx.outputs s0 sync0)
              (λ u. KeepsSync-restore_inputs spent)))
        s sync

  -- `undo_partial_transaction` leaves a set in sync that was in sync, also where it ends in an error.
  pub IsInSync-undo_partial_transaction :
      (tx : Transaction) (spent : List (OutPoint × UtxoEntry)) (s : UtxoSet smt)
      → IsInSync s
      → IsInSync (undo_partial_transaction sha smt tx spent s).1
  unfolding undo_partial_transaction
  IsInSync-undo_partial_transaction tx spent s sync =
      IsInSync-run_after (id_of sha smt tx s) _ (KeepsSync-id_of tx s sync) (λ id s0 sync0.
        KeepsSync-unless (is_coinbase tx) tt _ (KeepsSync-restore_missing spent) _
          (IsInSync-forget_outputs id 0 tx.outputs s0 sync0))
