-- ===== src/Consensus/Validation/Defs.antt =====
-- consensus/validation.rs: the errors, the median of the timestamps, the transaction root.
use exfer.Common.{
  ℕ, ◌/◌, List, [], ◌∷◌, Bytes, byte_string, length, get_or, leb, if◌then◌else◌, Result, ok, ◌>>=◌,
}
use exfer.Types.Hash.{Hash256, Sha}
use exfer.Types.Merkle.{merkle_root}
use exfer.Types.Cursor.{SerError}
use exfer.Chain.State.Defs.{StateError}
use exfer.Script.Value.Defs.{Value}
use exfer.Script.Cost.{CostError}
use exfer.Script.Eval.{EvalError}
use exfer.Types.Transaction.{OutPoint, Transaction, wtx_id}

-- Why a datum is not resolved.
pub data DatumError : Type 0 where
  inline_differs : DatumError
  datum_too_large : (size : ℕ) → DatumError
  hash_differs : DatumError
  datum_required : DatumError

-- What the messages print, but for the error of the parser of programs.
pub data Reason : Type 0 where
  witness_length : (length' : ℕ) → Reason
  deserialization_failed : Reason
  non_canonical : Reason
  type_check_failed : Reason
  datum_unresolved : DatumError → Reason
  cost_failed : CostError → Reason
  cost_above_cap : (steps : ℕ) → Reason
  total_above_budget : (total : ℕ) → Reason
  wrong_result : Value → Reason
  evaluation_failed : EvalError → Reason

mutual
  pub data ValidationError : Type 0 where
    invalid_version : (version : ℕ) → ValidationError
    invalid_height : (expected got : ℕ) → ValidationError
    invalid_prev_block_id : ValidationError
    pow_failed : ValidationError
    invalid_difficulty : ValidationError
    timestamp_below_mtp : (mtp timestamp : ℕ) → ValidationError
    timestamp_too_far_ahead : (bound timestamp : ℕ) → ValidationError
    timestamp_gap_too_large : (parent timestamp : ℕ) → ValidationError
    invalid_tx_root : ValidationError
    invalid_state_root : ValidationError
    no_coinbase : ValidationError
    no_transactions : ValidationError
    block_too_large : (size : ℕ) → ValidationError
    duplicate_transaction : Hash256 → ValidationError
    double_spend : OutPoint → ValidationError
    non_coinbase_sentinel : (tx_index : ℕ) → ValidationError
    no_inputs : ValidationError
    no_outputs : ValidationError
    utxo_not_found : OutPoint → ValidationError
    duplicate_input : OutPoint → ValidationError
    pubkey_hash_mismatch : (input_index : ℕ) → ValidationError
    signature_invalid : (input_index : ℕ) → ValidationError
    witness_invalid : (input_index : ℕ) → (reason : Reason) → ValidationError
    output_below_dust : (output_index value : ℕ) → ValidationError
    value_overflow : ValidationError
    insufficient_input_value : ValidationError
    fee_below_minimum : (fee min_fee : ℕ) → ValidationError
    coinbase_immature : OutPoint → (age : ℕ) → ValidationError
    tx_too_large : (size : ℕ) → ValidationError
    cost_overflow : ValidationError
    witness_count_mismatch : (inputs witnesses : ℕ) → ValidationError
    ill_typed_script : (index : ℕ) → ValidationError
    ambiguous_script : (index : ℕ) → ValidationError
    script_eval_failed : (input_index : ℕ) → (reason : Reason) → ValidationError
    datum_hash_mismatch : (index : ℕ) → ValidationError
    witness_oversized : (input_index size : ℕ) → ValidationError
    datum_oversized : (output_index size : ℕ) → ValidationError
    redeemer_oversized : (input_index size : ℕ) → ValidationError
    phase1_has_redeemer : (input_index : ℕ) → ValidationError
    reward_overflow : ValidationError
    arithmetic_overflow : ValidationError
    state_corrupted : Corruption → ValidationError
    coinbase_bad_input_count : (count : ℕ) → ValidationError
    coinbase_bad_output_index : (expected got : ℕ) → ValidationError
    coinbase_height_overflow : (height : ℕ) → ValidationError
    coinbase_wrong_reward : (expected got : ℕ) → ValidationError
    coinbase_zero_output : (index : ℕ) → ValidationError
    coinbase_witness_not_empty : ValidationError
    coinbase_has_redeemer : ValidationError
    coinbase_witness_count_mismatch : (expected got : ℕ) → ValidationError
    input_missing : (index : ℕ) → ValidationError

  -- Which write to the UTXO set failed, and which one after it.
  pub data Corruption : Type 0 where
    coinbase_apply : StateError → Corruption
    coinbase_rollback : StateError → StateError → Corruption
    tx_apply : StateError → Corruption
    tx_undo : StateError → StateError → Corruption
    tx_rollback : StateError → StateError → Corruption
    rollback : ValidationError → StateError → Corruption
    missing_input : OutPoint → Corruption
    outputs_exceed_inputs : StateError → Corruption

-- `Vec::sort` on numbers.
unfoldable pub insert_sorted : ℕ → List ℕ → List ℕ
insert_sorted x [] = x ∷ []
insert_sorted x (y ∷ ys) = let rest = insert_sorted x ys in if leb x y then x ∷ y ∷ ys else y ∷ rest

unfoldable pub sort : List ℕ → List ℕ
sort [] = []
sort (x ∷ xs) = insert_sorted x (sort xs)

-- `median_time_past`. On no timestamps the source panics, and its caller does not call it.
unfoldable pub median_time_past : List ℕ → ℕ
unfolding sort
median_time_past timestamps = let sorted = sort timestamps in get_or sorted (length sorted / 2) 0

-- types/mod.rs
abbrev pub ds_txroot : Bytes
ds_txroot = byte_string "EXFER-TXROOT"

-- The hashes of all transactions, up to the first that has none.
unfoldable pub hash_all :
    (Transaction → Result Hash256 SerError) → List Transaction → Result (List Hash256) SerError
hash_all hash [] = ok []
hash_all hash (tx ∷ txs) =
    let rest = hash_all hash txs in do id ← hash tx; ids ← rest; ok (id ∷ ids)

module _ (sha : Sha) where
  unfoldable pub compute_tx_root : List Transaction → Result Hash256 SerError
  unfolding hash_all
  compute_tx_root transactions = do
    wtx_ids ← hash_all (wtx_id sha) transactions
    ok (merkle_root sha ds_txroot wtx_ids)
