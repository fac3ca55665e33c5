-- ===== src/Chain/State/Encodable.antt =====
-- chain/state.rs: every entry of the set has an encoding, before a transaction and after it.
use exfer.Common.{ℕ, ◌+◌, ◌≡◌, arith, Bool, Bool-cases, inl, inr, List, [], ◌∷◌, ok}
use mathlib.Core.Path.{subst}
use exfer.Common.Exec.{ok_injective}
use exfer.Types.Hash.{Hash256, Sha}
use exfer.Types.Transaction.{TxInput, TxOutput, Transaction, OutPoint, is_coinbase}
use exfer.Chain.Smt.{Smt}
use exfer.Chain.State.Defs.{
  UtxoEntry, UtxoMutation, UtxoSet, remove_utxo, outpoint_eq, outpoint_key,
}
use exfer.Chain.State.Apply.{
  spent_outpoint, created_outpoint, remove_inputs, insert_outputs, apply_transaction,
}
use exfer.Chain.State.Lookup.{AllSerialize, Serializes, Inserted, lookup-remove_utxo}
use exfer.Chain.State.Outputs.{insert_outputs_step}
use exfer.Chain.State.Undo.{apply_parts, remove_inputs_step}

module _ (sha : Sha) (smt : Smt) where
  AllSerialize-remove_inputs :
      (is : List TxInput) (s s' : UtxoSet smt) (ms : List UtxoMutation)
      → AllSerialize sha smt s
      → remove_inputs sha smt is s ≡ (ok ms, s')
      → AllSerialize sha smt s'
  unfolding remove_inputs
  AllSerialize-remove_inputs [] s s' ms fits h =
      subst (AllSerialize sha smt) ((ok_injective [] ms s s' h).1) fits
  AllSerialize-remove_inputs (i ∷ is) s s' ms fits h =
      let (e, ms', there, rest, log) = remove_inputs_step sha smt i is s s' ms h in
      AllSerialize-remove_inputs is (remove_utxo sha smt (spent_outpoint i) s).1 s' ms'
        (λ j f at. fits j f (ground (arith, at, lookup-remove_utxo sha smt (spent_outpoint i) j s)))
        rest

  AllSerialize-Inserted :
      (op : OutPoint) (e : UtxoEntry) (s s1 : UtxoSet smt)
      → AllSerialize sha smt s
      → Inserted sha smt op e s s1
      → AllSerialize sha smt s1
  AllSerialize-Inserted op e s s1 fits i j f at = elim (Bool-cases (outpoint_eq op j)) [
    | inr other ↦ fits j f (ground (arith, at, i.after j, other))
    | inl same ↦
        let e_f : e ≡ f = ground (arith, at, i.after j, same) in subst Serializes e_f i.fits
  ]

  AllSerialize-insert_outputs :
      (id : Hash256) (height : ℕ) (coinbase : Bool) (idx : ℕ) (os : List TxOutput)
      (s s' : UtxoSet smt) (ms : List UtxoMutation)
      → AllSerialize sha smt s
      → insert_outputs sha smt id height coinbase idx os s ≡ (ok ms, s')
      → AllSerialize sha smt s'
  unfolding insert_outputs
  AllSerialize-insert_outputs id height coinbase idx [] s s' ms fits h =
      subst (AllSerialize sha smt) ((ok_injective [] ms s s' h).1) fits
  AllSerialize-insert_outputs id height coinbase idx (o ∷ os) s s' ms fits h =
      let (s1, ms', i, rest, spent) =
        insert_outputs_step sha smt id height coinbase idx o os s s' ms h in
      AllSerialize-insert_outputs id height coinbase (idx + 1) os s1 s' ms'
        (AllSerialize-Inserted (created_outpoint id idx) _ s s1 fits i) rest

  -- Applying a transaction keeps an encoding for every entry.
  pub AllSerialize-apply_transaction :
      (tx : Transaction) (height : ℕ) (s s' : UtxoSet smt) (ms : List UtxoMutation)
      → AllSerialize sha smt s
      → apply_transaction sha smt tx height s ≡ (ok ms, s')
      → AllSerialize sha smt s'
  AllSerialize-apply_transaction tx height s s' ms fits h =
      let (id, spent, s1, created, named, spending, creating, log) =
        apply_parts sha smt tx height s s' ms h in
      let spent_fits : AllSerialize sha smt s1 = elim (Bool-cases (is_coinbase tx)) [
        | inl minted ↦
            subst (AllSerialize sha smt) ((ok_injective [] spent s s1 (rw minted at spending)).1)
              fits
        | inr spends ↦ AllSerialize-remove_inputs tx.inputs s s1 spent fits (rw spends at spending)
      ] in
      AllSerialize-insert_outputs id height (is_coinbase tx) 0 tx.outputs s1 s' created spent_fits
        creating
