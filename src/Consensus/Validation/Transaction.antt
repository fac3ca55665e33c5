-- ===== src/Consensus/Validation/Transaction.antt =====
-- consensus/validation.rs: `validate_transaction`.
use exfer.Common.{
  ℕ, ◌+◌, ◌-◌, ◌%◌, ◌^◌, not, ◌&&◌, ◌||◌, none, some, List, [], ◌∷◌, Bytes, map, length, ltb, ◌==◌,
  u64_max, Result, ok, reject, ok_or, ◌>>=◌, ◌>>◌,
}
use exfer.Types.Hash.{Sha}
use exfer.Types.Transaction.{
  TxInput, TxOutput, TxWitness, Transaction, OutPoint, max_datum_size, sig_message,
}
use exfer.Chain.Smt.{Smt}
use exfer.Chain.State.Defs.{UtxoSet, UtxoEntry, get, outpoint_key}
use exfer.Chain.State.Apply.{spent_outpoint}
use exfer.Script.Jets.{ScriptContext}
use exfer.Consensus.Cost.{min_fee_with_script_cost}
use exfer.Consensus.Validation.Defs.{
  ValidationError, no_inputs, no_outputs, witness_count_mismatch, datum_oversized,
  output_below_dust, utxo_not_found, coinbase_immature, value_overflow, insufficient_input_value,
  script_eval_failed, total_above_budget, cost_overflow, fee_below_minimum,
}
use exfer.Consensus.Validation.Header.{Check, first_repeat, sized}
use exfer.Consensus.Validation.Coinbase.{
  dust_threshold, check_tx_size, check_datum_hash, check_scripts, total_output,
}
use exfer.Consensus.Validation.Structure.{check_witness_sizes, refuse_duplicate}
use exfer.Consensus.Validation.Spendable.{output_rules}
use exfer.Consensus.Validation.Witness.{Setting, build_script_context, verify_input}

-- types/mod.rs
abbrev pub max_tx_script_budget : ℕ
max_tx_script_budget = 20_000_000

unfoldable pub check_datum_sizes : ℕ → List TxOutput → Check
check_datum_sizes idx [] = ok tt
check_datum_sizes idx (o ∷ os) =
    let rest = check_datum_sizes (idx + 1) os in
    do
      elim o.datum [
        | none ↦ ok tt
        | some datum ↦
            reject (ltb max_datum_size (length datum)) (datum_oversized idx (length datum))
      ]
      rest

-- The sum that the first pass adds up.
unfoldable pub total_input : List UtxoEntry → ℕ
total_input [] = 0
total_input (e ∷ es) = e.output.value + total_input es

abbrev pub zip {ℓ} : {A B : Type ℓ} → List A → List B → List (A × B)
zip [] ys = []
zip (x ∷ xs) [] = []
zip (x ∷ xs) (y ∷ ys) = (x, y) ∷ zip xs ys

unfoldable pub check_values : ℕ → ℕ → Check
check_values input output = do
  reject (ltb u64_max input || ltb u64_max output) value_overflow
  reject (ltb input output) insufficient_input_value

module _ (sha : Sha) (smt : Smt) (setting : Setting) where
  -- The dust threshold, and a datum beside its hash.
  unfoldable pub check_amounts : ℕ → List TxOutput → Check
  check_amounts idx [] = ok tt
  check_amounts idx (o ∷ os) =
      let rest = check_amounts (idx + 1) os in
      do
        reject (ltb o.value dust_threshold) (output_below_dust idx o.value)
        elim o.datum [
          | none ↦ ok tt
          | some datum ↦
              check_datum_hash sha (output_rules setting.deserialize_program) idx datum o.datum_hash
        ]
        rest

  -- One round of the first pass.
  unfoldable pub spendable_entry : ℕ → OutPoint → UtxoSet smt → Result UtxoEntry ValidationError
  spendable_entry height op s = do
    entry ← ok_or (get smt op s) (utxo_not_found op)
    reject (entry.is_coinbase && ltb (height - entry.height) setting.coinbase_maturity)
        (coinbase_immature op (height - entry.height))
    ok entry

  unfoldable pub spendable_entries :
      ℕ → List TxInput → UtxoSet smt → Result (List UtxoEntry) ValidationError
  spendable_entries height [] s = ok []
  spendable_entries height (i ∷ is) s =
      let rest = spendable_entries height is s in
      do entry ← spendable_entry height (spent_outpoint i) s; entries ← rest; ok (entry ∷ entries)

  -- The second pass, with the sums of the costs; `witnesses[idx]` stands beside the entry.
  unfoldable pub verify_inputs :
      Bytes → ScriptContext → ℕ → List (UtxoEntry × TxWitness) → Result (ℕ × ℕ) ValidationError
  verify_inputs message context idx [] = ok (0, 0)
  verify_inputs message context idx ((entry, w) ∷ more) =
      let rest = verify_inputs message context (idx + 1) more in
      do
        costs ← verify_input sha setting message context idx entry w
        sums ← rest
        ok (costs.0 + sums.0, costs.1 + sums.1)

  unfoldable pub check_fee : Transaction → ℕ → ℕ × ℕ → Check
  check_fee tx fee costs = do
    min_fee ← ok_or (min_fee_with_script_cost tx costs.0 costs.1) cost_overflow
    reject (ltb fee min_fee) (fee_below_minimum fee min_fee)

  -- What comes before the UTXO set is read.
  unfoldable pub check_shape : Transaction → Check
  check_shape tx = do
    reject (length tx.inputs == 0) no_inputs
    reject (length tx.outputs == 0) no_outputs
    reject (not (length tx.witnesses == length tx.inputs))
        (witness_count_mismatch (length tx.inputs) (length tx.witnesses))
    check_witness_sizes 0 tx.witnesses
    check_datum_sizes 0 tx.outputs
    check_tx_size tx
    refuse_duplicate (first_repeat (map spent_outpoint tx.inputs) [])
    check_amounts 0 tx.outputs

  -- The fee, and the two costs.
  unfoldable pub validate_transaction :
      Transaction → UtxoSet smt → ℕ → Result (ℕ × (ℕ × ℕ)) ValidationError
  validate_transaction tx s current_height = do
    check_shape tx
    entries ← spendable_entries current_height tx.inputs s
    check_values (total_input entries) (total_output tx.outputs)
    check_scripts sha (output_rules setting.deserialize_program) 0 tx.outputs
    message ← sized (sig_message setting.genesis_id tx)
    context ← build_script_context sha smt setting.genesis_id tx s current_height
    costs ← verify_inputs message context 0 (zip entries tx.witnesses)
    reject (ltb max_tx_script_budget costs.0)
        (script_eval_failed (length tx.inputs - 1) (total_above_budget costs.0))
    let fee = (total_input entries - total_output tx.outputs) % 2 ^ 64
    check_fee tx fee costs
    ok (fee, costs)
