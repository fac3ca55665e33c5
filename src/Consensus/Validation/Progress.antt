-- ===== src/Consensus/Validation/Progress.antt =====
-- consensus/validation.rs: a transaction that was accepted can be applied.
use exfer.Common.{
  ℕ, suc, ◌+◌, ◌^◌, ◌≤◌, ◌<◌, ◌≡◌, ◌≢◌, refl, ◌∙◌, ap, arith, Bool, Bool-cases, inl, inr, none,
  some, List, [], ◌∷◌, ◌++◌, map, All, Bytes, length, ok, >>=-eq-ok,
}
use exfer.Common.Map.{lookup}
use exfer.Types.Hash.{Hash256, Sha, domain_hash}
use exfer.Types.Transaction.{
  TxInput, TxOutput, OutPoint, Transaction, is_coinbase, serialize, serialize_all, serialize_header,
  serialize_body, serialize_output, encode_input, signing_bytes, tx_id, ds_tx,
}
use exfer.Chain.Smt.{Smt}
use exfer.Chain.State.Defs.{
  UtxoSet, UtxoEntry, UtxoMutation, removed, inserted, get, remove_utxo, outpoint_eq,
  outpoint_eq_iff, outpoint_key,
}
use exfer.Chain.State.Apply.{
  spent_outpoint, created_outpoint, id_of, remove_input, remove_inputs, insert_outputs,
  apply_transaction,
}
use exfer.Chain.State.Lookup.{
  Inserted, insert_utxo-Inserted, insert_utxo_fresh, remove_utxo_found, lookup-remove_utxo,
}
use exfer.Chain.State.Undo.{remove_inputs_absent}
use exfer.Consensus.Validation.Distinct.{IsDistinct}
use exfer.Consensus.Validation.Witness.{Setting}
use exfer.Consensus.Validation.Transaction.{validate_transaction}
use exfer.Consensus.Validation.Accounts.{AreFunded, validate_transaction-IsPaid}

All-serialize :
    (os : List TxOutput) (bytes : Bytes)
    → serialize_all serialize_output os ≡ ok bytes
    → All (λ o. (bs : Bytes) × (serialize_output o ≡ ok bs)) os
unfolding serialize_all
All-serialize [] bytes h = tt
All-serialize (o ∷ os) bytes h =
    let (first, one, rest) = >>=-eq-ok (serialize_output o) _ h in
    let (more, others, last) = >>=-eq-ok (serialize_all serialize_output os) _ rest in
    ((first, one), All-serialize os more others)

module _ (sha : Sha) (smt : Smt) where
  abbrev AllFound : UtxoSet smt → List TxInput → Type 0
  AllFound s is = All (λ i. (e : UtxoEntry) × (lookup (spent_outpoint i) s.utxos ≡ some e)) is

  AllFound-remove :
      (op : OutPoint) (is : List TxInput) (s : UtxoSet smt)
      → All (λ j. op ≢ j) (map spent_outpoint is)
      → AllFound s is
      → AllFound (remove_utxo sha smt op s).1 is
  AllFound-remove op [] s apart found = tt
  AllFound-remove op (i ∷ is) s apart ((e, there), found) = (
    (
      e,
      ground (
        arith,
        there,
        lookup-remove_utxo sha smt op (spent_outpoint i) s,
        outpoint_eq_iff op (spent_outpoint i),
        apart.0,
      ),
    ),
    AllFound-remove op is s apart.1 found,
  )

  remove_inputs_ok :
      (is : List TxInput) (s : UtxoSet smt)
      → AllFound s is
      → IsDistinct (map spent_outpoint is)
      → (ms : List UtxoMutation) × (s' : UtxoSet smt) × (remove_inputs sha smt is s ≡ (ok ms, s'))
  unfolding remove_inputs remove_input
  remove_inputs_ok [] s found distinct = ([], s, refl)
  remove_inputs_ok (i ∷ is) s ((e, there), found) distinct =
      let op = spent_outpoint i in
      let (ms, s', done) =
        remove_inputs_ok is (remove_utxo sha smt op s).1 (AllFound-remove op is s distinct.0 found)
          distinct.1 in
      (
        removed op e ∷ ms,
        s',
        rw (remove_inputs, remove_input, remove_utxo_found sha smt op s, there, done),
      )

  -- No output of the transaction is in the set, from index idx on.
  abbrev IsFree : Hash256 → ℕ → ℕ → UtxoSet smt → Type 0
  IsFree id idx n s =
      (k : ℕ) → idx ≤ k → k < idx + n → lookup (created_outpoint id k) s.utxos ≡ none

  IsFree-insert :
      (id : Hash256) (idx n : ℕ) (e : UtxoEntry) (s s1 : UtxoSet smt)
      → idx + suc n ≤ 2 ^ 32
      → IsFree id idx (suc n) s
      → Inserted sha smt (created_outpoint id idx) e s s1
      → IsFree id (idx + 1) n s1
  IsFree-insert id idx n e s s1 few free i k low high =
      let op = created_outpoint id idx in
      let next = created_outpoint id k in
      elim (Bool-cases (outpoint_eq op next)) [
        | inl same ↦ absurd (
            omega
              (arith, few, low, high, ap (λ o. o.output_index) ((outpoint_eq_iff op next).0 same)))
        | inr other ↦ i.after next ∙ rw other (free k (omega (arith, low)) (omega (arith, high)))
      ]

  insert_outputs_ok :
      (id : Hash256) (height : ℕ) (coinbase : Bool) (idx : ℕ) (os : List TxOutput) (s : UtxoSet smt)
      → All (λ o. (bs : Bytes) × (serialize_output o ≡ ok bs)) os
      → idx + length os ≤ 2 ^ 32
      → IsFree id idx (length os) s
      → (ms : List UtxoMutation) × (s' : UtxoSet smt) × (insert_outputs sha smt id height coinbase
            idx os s
          ≡ (ok ms, s'))
  unfolding insert_outputs
  insert_outputs_ok id height coinbase idx [] s fits few free = ([], s, refl)
  insert_outputs_ok id height coinbase idx (o ∷ os) s fits few free =
      let op = created_outpoint id idx in
      let entry : UtxoEntry = record { output = o; height = height; is_coinbase = coinbase } in
      let (s1, wrote) =
        insert_utxo_fresh sha smt op entry s (free idx (omega arith) (omega arith)) fits.0 in
      let i = insert_utxo-Inserted sha smt op entry s s1 wrote in
      let (ms, s', done) =
        insert_outputs_ok id height coinbase (idx + 1) os s1 fits.1 (omega (arith, few))
          (IsFree-insert id idx (length os) entry s s1 few free i) in
      (inserted op entry ∷ ms, s', rw (insert_outputs, wrote, done))

  -- What makes `apply_transaction` succeed.
  apply_transaction_ok :
      (tx : Transaction) (height : ℕ) (id : Hash256) (s : UtxoSet smt)
      → tx_id sha tx ≡ ok id
      → AllFound s tx.inputs
      → IsDistinct (map spent_outpoint tx.inputs)
      → All (λ o. (bs : Bytes) × (serialize_output o ≡ ok bs)) tx.outputs
      → length tx.outputs ≤ 2 ^ 32
      → IsFree id 0 (length tx.outputs) s
      → (ms : List UtxoMutation) × (s' : UtxoSet smt) × (apply_transaction sha smt tx height s
          ≡ (ok ms, s'))
  unfolding apply_transaction id_of
  apply_transaction_ok tx height id s named found distinct fits few free =
      elim (Bool-cases (is_coinbase tx)) [
        | inl minted ↦
            let (created, s2, creating) =
              insert_outputs_ok id height (is_coinbase tx) 0 tx.outputs s fits (omega (arith, few))
                free in
            (
              [] ++ created,
              s2,
              rw (apply_transaction, id_of, named, minted) (rw (rw minted at creating)),
            )
        | inr spends ↦
            let (spent, s1, spending) = remove_inputs_ok tx.inputs s found distinct in
            let (created, s2, creating) =
              insert_outputs_ok id height (is_coinbase tx) 0 tx.outputs s1 fits (omega (arith, few))
                (λ k low high.
                  remove_inputs_absent sha smt tx.inputs s s1 spent (created_outpoint id k) spending
                    (free k low high)) in
            (
              spent ++ created,
              s2,
              rw (apply_transaction, id_of, named, spends, spending) (rw (rw spends at creating)),
            )
      ]

serialize_header-few :
    (tx : Transaction) (bytes : Bytes) → serialize_header tx ≡ ok bytes → length tx.outputs < 2 ^ 16
unfolding serialize_header
serialize_header-few tx bytes h = ground (arith, h)

serialize_body-All :
    (tx : Transaction) (bytes : Bytes)
    → serialize_body tx ≡ ok bytes
    → All (λ o. (bs : Bytes) × (serialize_output o ≡ ok bs)) tx.outputs
unfolding serialize_body
serialize_body-All tx bytes h =
    let (ins, one, rest) = >>=-eq-ok (serialize_all encode_input tx.inputs) _ h in
    let (outs, two, last) = >>=-eq-ok (serialize_all serialize_output tx.outputs) _ rest in
    All-serialize tx.outputs outs two

-- A transaction that serializes has an identifier, outputs that serialize, and few of them.
serialize_parts :
    (sha : Sha) (tx : Transaction) (bytes : Bytes)
    → serialize tx ≡ ok bytes
    → ((id : Hash256) × (tx_id sha tx ≡ ok id))
      × All (λ o. (bs : Bytes) × (serialize_output o ≡ ok bs)) tx.outputs
      × (length tx.outputs < 2 ^ 16)
unfolding serialize signing_bytes tx_id
serialize_parts sha tx bytes h =
    let (header, counts, rest) = >>=-eq-ok (serialize_header tx) _ h in
    let (body, parts, last) = >>=-eq-ok (serialize_body tx) _ rest in
    (
      (domain_hash sha ds_tx (header ++ body), rw (counts, parts)),
      serialize_body-All tx body parts,
      serialize_header-few tx header counts,
    )

module _ (sha : Sha) (smt : Smt) (setting : Setting) where
  AllFound-funded :
      (height : ℕ) (s : UtxoSet smt) (is : List TxInput) (es : List UtxoEntry)
      → AreFunded sha smt setting height s is es
      → AllFound sha smt s is
  unfolding get
  AllFound-funded height s [] es h = tt
  AllFound-funded height s (i ∷ is) [] h = absurd h
  AllFound-funded height s (i ∷ is) (e ∷ es) (found, mature, more) =
      ((e, found), AllFound-funded height s is es more)

  -- A transaction that `validate_transaction` accepts is applied without an error to the set against
  -- which it was validated, as long as the set has none of the outputs that it creates.
  pub apply_transaction-validate_transaction :
      (tx : Transaction) (s : UtxoSet smt) (height fee cost more_cost : ℕ)
      → validate_transaction sha smt setting tx s height ≡ ok (fee, (cost, more_cost))
      → ((id : Hash256) (k : ℕ)
          → tx_id sha tx ≡ ok id
          → k < length tx.outputs
          → lookup (created_outpoint id k) s.utxos ≡ none)
      → (ms : List UtxoMutation) × (s' : UtxoSet smt) × (apply_transaction sha smt tx height s
          ≡ (ok ms, s'))
  apply_transaction-validate_transaction tx s height fee cost more_cost h free =
      let paid = validate_transaction-IsPaid sha smt setting tx s height fee cost more_cost h in
      let ((id, named), fits, few) = serialize_parts sha tx paid.bytes paid.written in
      apply_transaction_ok sha smt tx height id s named
        (AllFound-funded height s tx.inputs paid.entries paid.funded) paid.distinct fits
        (omega (arith, few)) (λ k low high. free id k named (omega (arith, high)))
