-- ===== src/Consensus/Cost.antt =====
-- consensus/cost.rs: the cost of a transaction and the smallest fee.
pub mod Fee
use exfer.Common.{
  ℕ, ◌+◌, ◌*◌, Bool, Option, none, some, List, [], ◌∷◌, Bytes, length, ltb, ◌==◌, u64_max, div_ceil,
  and_then, to_option, if◌then◌else◌,
}
use exfer.Types.Hash.{Hash256}
use exfer.Types.Transaction.{TxOutput, TxWitness, Transaction, serialize, sig_message}

-- types/mod.rs
abbrev pub utxo_lookup_cost : ℕ
utxo_lookup_cost = 100

abbrev pub utxo_create_cost : ℕ
utxo_create_cost = 100

abbrev pub smt_delete_cost : ℕ
smt_delete_cost = 500

abbrev pub smt_insert_cost : ℕ
smt_insert_cost = 500

abbrev pub min_fee_divisor : ℕ
min_fee_divisor = 100

abbrev pub phase1_script_eval_cost : ℕ
phase1_script_eval_cost = 5_000

abbrev pub output_typecheck_cost : ℕ
output_typecheck_cost = 1_000

-- `validation::is_phase1_script`
unfoldable pub is_phase1_script : Bytes → Bool
is_phase1_script script = length script == 32

unfoldable pub ceil_div_u128 : ℕ → ℕ → Option ℕ
ceil_div_u128 a b = let result = div_ceil a b in if ltb u64_max result then none else some result

-- `if bytes > 0 { cost += ceil_div_u128(bytes, 64)? }`
unfoldable pub charge_bytes : Bytes → ℕ → Option ℕ
charge_bytes bytes cost =
    if ltb 0 (length bytes)
    then and_then (ceil_div_u128 (length bytes) 64) (λ c. some (cost + c))
    else some cost

unfoldable pub charge_optional : Option Bytes → ℕ → Option ℕ
charge_optional none cost = some cost
charge_optional (some bytes) cost = charge_bytes bytes cost

unfoldable pub typecheck_cost : List TxOutput → ℕ → ℕ
typecheck_cost [] cost = cost
typecheck_cost (o ∷ os) cost =
    typecheck_cost os (if is_phase1_script o.script then cost else cost + output_typecheck_cost)

unfoldable pub witness_deser_cost : List TxWitness → ℕ → Option ℕ
witness_deser_cost [] cost = some cost
witness_deser_cost (w ∷ ws) cost =
    and_then (charge_bytes w.witness cost)
      (λ c. and_then (charge_optional w.redeemer c) (witness_deser_cost ws))

unfoldable pub datum_deser_cost : List TxOutput → ℕ → Option ℕ
datum_deser_cost [] cost = some cost
datum_deser_cost (o ∷ os) cost = and_then (charge_optional o.datum cost) (datum_deser_cost os)

-- `Some(total)` where it fits a u64.
abbrev pub fit_u64 : ℕ → Option ℕ
fit_u64 total = if ltb u64_max total then none else some total

-- The components from 2 on, and the sum; the counts are those of the transaction.
unfoldable pub tx_cost_with_script_cost : Transaction → ℕ → ℕ → Option ℕ
tx_cost_with_script_cost tx script_eval_cost script_validation_cost =
    let input_count = length tx.inputs in
    let output_count = length tx.outputs in
    let typecheck = typecheck_cost tx.outputs 0 in
    and_then (witness_deser_cost tx.witnesses 0) (λ witness.
      and_then (datum_deser_cost tx.outputs 0) (λ datum.
        and_then (to_option (serialize tx)) (λ bytes.
          and_then (ceil_div_u128 (length bytes) 64) (λ tx_deser.
            let utxo_io = input_count * utxo_lookup_cost + output_count * utxo_create_cost in
            let smt = input_count * smt_delete_cost + output_count * smt_insert_cost in
            fit_u64 (
              script_eval_cost + typecheck + witness + datum + tx_deser + utxo_io + smt
              + script_validation_cost)))))

-- `tx_cost`: the copy for pubkey-hash inputs, which also builds the signed message.
unfoldable pub tx_cost : Hash256 → Transaction → Option ℕ
tx_cost genesis_id tx =
    let input_count = length tx.inputs in
    let output_count = length tx.outputs in
    and_then (to_option (sig_message genesis_id tx)) (λ message.
      let per_input = phase1_script_eval_cost + div_ceil (length message) 64 * 8 in
      let script_eval = input_count * per_input in
      let typecheck = typecheck_cost tx.outputs 0 in
      and_then (witness_deser_cost tx.witnesses 0) (λ witness.
        and_then (datum_deser_cost tx.outputs 0) (λ datum.
          and_then (to_option (serialize tx)) (λ bytes.
            and_then (ceil_div_u128 (length bytes) 64) (λ tx_deser.
              let utxo_io = input_count * utxo_lookup_cost + output_count * utxo_create_cost in
              let smt = input_count * smt_delete_cost + output_count * smt_insert_cost in
              fit_u64
                (script_eval + typecheck + witness + datum + tx_deser + utxo_io + smt + 0))))))

unfoldable pub min_fee : Hash256 → Transaction → Option ℕ
min_fee genesis_id tx =
    and_then (tx_cost genesis_id tx) (λ cost. ceil_div_u128 cost min_fee_divisor)

unfoldable pub min_fee_with_script_cost : Transaction → ℕ → ℕ → Option ℕ
min_fee_with_script_cost tx script_eval_cost script_validation_cost =
    and_then (tx_cost_with_script_cost tx script_eval_cost script_validation_cost)
      (λ cost. ceil_div_u128 cost min_fee_divisor)
