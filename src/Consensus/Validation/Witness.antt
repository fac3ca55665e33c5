-- ===== src/Consensus/Validation/Witness.antt =====
-- consensus/validation.rs: how one input proves that it may be spent.
use exfer.Common.{
  ℕ, ◌+◌, ◌-◌, ◌*◌, ◌%◌, ◌^◌, Bool, true, not, Option, none, some, List, [], ◌∷◌, Bytes, map,
  length, take, drop, ltb, ◌==◌, bytes_eq, if◌then◌else◌, div_ceil, Result, ok, err, reject, ok_or,
  ◌>>=◌, ◌>>◌,
}
use exfer.Common.Map.{is_some}
use exfer.Types.Hash.{Hash256, Sha}
use exfer.Types.Transaction.{
  TxInput, TxOutput, TxWitness, Transaction, pubkey_hash_from_key, max_datum_size, sig_message,
}
use exfer.Chain.Smt.{Smt}
use exfer.Chain.State.Defs.{UtxoSet, UtxoEntry, get}
use exfer.Chain.State.Apply.{spent_outpoint}
use exfer.Script.Value.Defs.{Value, as_bool}
use exfer.Script.Ast.{Program}
use exfer.Script.Jets.{ScriptContext, TxInputInfo, TxOutputInfo, with_self_index}
use exfer.Script.Cost.{compute_cost}
use exfer.Script.Typecheck.{typecheck}
use exfer.Script.Eval.{Host, Budget, EvalError, new_budget, evaluate_with_context}
use exfer.Consensus.Cost.{is_phase1_script, phase1_script_eval_cost}
use exfer.Consensus.Validation.Defs.{
  ValidationError, DatumError, inline_differs, datum_too_large, hash_differs, datum_required,
  Reason, witness_length, deserialization_failed, non_canonical, type_check_failed,
  datum_unresolved, cost_failed, cost_above_cap, wrong_result, evaluation_failed, witness_invalid,
  phase1_has_redeemer, pubkey_hash_mismatch, signature_invalid, script_eval_failed, input_missing,
}
use exfer.Consensus.Validation.Header.{Check, sized}
use exfer.Consensus.Validation.OutputScript.{max_script_steps}

-- What validation takes from elsewhere: the host of the evaluator; the crates curve25519-dalek, which
-- tells whether a key that decompresses has small order, and ed25519-dalek, which verifies; the
-- parser and the printer of programs; the domain of signatures; and the maturity of a coinbase.
pub record Setting : Type 0 where
  pub host : Host
  pub decompress : Bytes → Option Bool
  pub verify : Bytes → Bytes → Bytes → Bool
  pub deserialize_program : Bytes → Option Program
  pub serialize_program : Program → Bytes
  pub genesis_id : Hash256
  pub coinbase_maturity : ℕ

-- `is_weak_ed25519_key`
unfoldable pub is_weak_key : Option Bool → Bool
is_weak_key none = true
is_weak_key (some small_order) = small_order

abbrev pub optional_bytes : Option Bytes → Value
optional_bytes none = Value.left Value.unit
optional_bytes (some bytes) = Value.right (Value.raw bytes)

unfoldable pub build_script_input : Bytes → Option Bytes → Option Bytes → Value
build_script_input witness redeemer datum =
    Value.pair (Value.raw witness)
      (Value.pair (optional_bytes redeemer) (Value.pair (optional_bytes datum) Value.unit))

-- `.map_err(|e| ScriptEvalFailed { input_index: idx, reason: .. })?`
abbrev pub or_fail : {A E : Type 0} → ℕ → (E → Reason) → Result A E → Result A ValidationError
or_fail idx reason (ok a) = ok a
or_fail idx reason (err e) = err (script_eval_failed idx (reason e))

-- The result of the evaluation, with the steps that it took.
unfoldable pub require_true : ℕ → Result Value EvalError × Budget → Result ℕ ValidationError
require_true idx (err e, budget) = err (script_eval_failed idx (evaluation_failed e))
require_true idx (ok v, budget) = elim (as_bool v) [
  | none ↦ err (script_eval_failed idx (wrong_result v))
  | some holds ↦
      if holds
      then ok (max_script_steps - budget.steps_remaining)
      else err (script_eval_failed idx (wrong_result v))
]

module _ (sha : Sha) where
  unfoldable pub resolve_hash : Hash256 → Option Bytes → Result (Option Bytes) DatumError
  resolve_hash hash none = err datum_required
  resolve_hash hash (some provided) = do
    reject (ltb max_datum_size (length provided)) (datum_too_large (length provided))
    reject (not (bytes_eq (sha.sha256 provided) hash)) hash_differs
    ok (some provided)

  unfoldable pub matches_inline : Bytes → Option Hash256 → Result (Unit {0}) DatumError
  matches_inline datum none = ok tt
  matches_inline datum (some hash) = reject (not (bytes_eq (sha.sha256 datum) hash)) inline_differs

  unfoldable pub resolve_datum : TxOutput → TxWitness → Result (Option Bytes) DatumError
  resolve_datum utxo witness = elim utxo.datum [
    | some datum ↦ do matches_inline datum utxo.datum_hash; ok (some datum)
    | none ↦ elim utxo.datum_hash [
      | some hash ↦ resolve_hash hash witness.redeemer
      | none ↦ ok none
    ]
  ]

  unfoldable pub input_info : UtxoEntry → TxInput → TxInputInfo
  input_info entry i = record {
    prev_tx_id = i.prev_tx_id;
    output_index = i.output_index;
    value = entry.output.value;
    script_hash = sha.sha256 entry.output.script;
  }

  unfoldable pub output_info : TxOutput → TxOutputInfo
  output_info o = record {
    value = o.value;
    script_hash = sha.sha256 o.script;
    datum_hash = o.datum_hash;
  }

  module _ (smt : Smt) where
    unfoldable pub input_infos :
        ℕ → List TxInput → UtxoSet smt → Result (List TxInputInfo) ValidationError
    input_infos i [] s = ok []
    input_infos i (input ∷ inputs) s =
        let rest = input_infos (i + 1) inputs s in
        do
          utxo ← ok_or (get smt (spent_outpoint input) s) (input_missing i)
          infos ← rest
          ok (input_info utxo input ∷ infos)

    -- `build_script_context`
    unfoldable pub build_script_context :
        Hash256 → Transaction → UtxoSet smt → ℕ → Result ScriptContext ValidationError
    build_script_context genesis_id tx s block_height = do
      tx_inputs ← input_infos 0 tx.inputs s
      sig_hash ← sized (sig_message genesis_id tx)
      ok (record {
        tx_inputs = tx_inputs;
        tx_outputs = map output_info tx.outputs;
        self_index = 0;
        block_height = block_height;
        sig_hash = sig_hash;
      })

  module _ (setting : Setting) where
    unfoldable pub validate_phase1_input : ℕ → TxWitness → TxOutput → Bytes → Check
    validate_phase1_input idx w utxo message =
        let pubkey = take 32 w.witness in
        do
          reject (not (length w.witness == 96))
              (witness_invalid idx (witness_length (length w.witness)))
          reject (is_some w.redeemer) (phase1_has_redeemer idx)
          reject (not (bytes_eq (pubkey_hash_from_key sha pubkey) utxo.script))
              (pubkey_hash_mismatch idx)
          reject (is_weak_key (setting.decompress pubkey)) (signature_invalid idx)
          reject (not (setting.verify pubkey message (drop 32 w.witness))) (signature_invalid idx)

    unfoldable pub validate_script_input :
        ℕ → TxWitness → TxOutput → ScriptContext → Result ℕ ValidationError
    validate_script_input idx w utxo context = do
      program ←
          ok_or (setting.deserialize_program utxo.script)
            (script_eval_failed idx deserialization_failed)
      reject (not (bytes_eq (setting.serialize_program program) utxo.script))
          (script_eval_failed idx non_canonical)
      typed ← or_fail idx (λ e. type_check_failed) (typecheck program)
      datum ← or_fail idx datum_unresolved (resolve_datum utxo w)
      cost ← or_fail idx cost_failed (
          compute_cost program (record {
            input_count = length context.tx_inputs;
            output_count = length context.tx_outputs;
          }))
      reject (ltb max_script_steps cost.steps) (script_eval_failed idx (cost_above_cap cost.steps))
      require_true idx (
          evaluate_with_context setting.host w.witness program
            (build_script_input w.witness w.redeemer datum) (new_budget max_script_steps cost.cells)
            (with_self_index (idx % 2 ^ 32) context))

    -- One round of the second pass: the cost of the evaluation, and that of reading the script.
    unfoldable pub verify_input :
        Bytes → ScriptContext → ℕ → UtxoEntry → TxWitness → Result (ℕ × ℕ) ValidationError
    verify_input message context idx entry w =
        if is_phase1_script entry.output.script
        then (do
          validate_phase1_input idx w entry.output message
          ok (phase1_script_eval_cost + div_ceil (length message) 64 * 8, 0))
        else (do
          script_cost ← validate_script_input idx w entry.output context
          ok (script_cost, div_ceil (length entry.output.script) 64 * 10))
