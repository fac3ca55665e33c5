-- ===== src/Consensus/Validation/Coinbase.antt =====
-- consensus/validation.rs: `validate_coinbase`.
use exfer.Common.{
  ℕ, ◌+◌, ◌*◌, ◌^◌, ◌≤◌, ◌<◌, ◌≡◌, refl, arith, Bool, true, not, ◌&&◌, Option, none, some, List, [],
  ◌∷◌, Bytes, length, ltb, ◌==◌, bytes_eq, if◌then◌else◌, u64_max, ok, err, reject, ◌>>=◌, ◌>>◌,
  >>=-eq-ok,
}
use exfer.Common.Map.{is_some}
use exfer.Types.Hash.{Hash256, Sha, zero_hash}
use exfer.Types.Transaction.{
  TxInput, TxOutput, TxWitness, Transaction, serialize, is_coinbase, max_datum_size,
}
use exfer.Consensus.Cost.{is_phase1_script}
use exfer.Consensus.Validation.Defs.{
  coinbase_bad_input_count, tx_too_large, coinbase_height_overflow, coinbase_bad_output_index,
  coinbase_witness_count_mismatch, coinbase_witness_not_empty, coinbase_has_redeemer,
  output_below_dust, datum_oversized, datum_hash_mismatch, ambiguous_script, coinbase_wrong_reward,
}
use exfer.Consensus.Validation.Header.{Check, sized}
use exfer.Consensus.Validation.Checks.{reject-ok, reject-not}

-- types/mod.rs
abbrev pub max_tx_size : ℕ
max_tx_size = 1_048_576

abbrev pub dust_threshold : ℕ
dust_threshold = 200

unfoldable pub check_sentinel : List TxInput → Check
check_sentinel [] = err (coinbase_bad_input_count 0)
check_sentinel (i ∷ []) =
    reject (not (bytes_eq i.prev_tx_id zero_hash)) (coinbase_bad_input_count 0)
check_sentinel (i ∷ j ∷ is) = err (coinbase_bad_input_count (length (i ∷ j ∷ is)))

unfoldable pub check_tx_size : Transaction → Check
check_tx_size tx = do
  serialized ← sized (serialize tx)
  reject (ltb max_tx_size (length serialized)) (tx_too_large (length serialized))

-- `tx.inputs[0].output_index`, which is read where there is an input.
abbrev pub first_index : List TxInput → ℕ
first_index [] = 0
first_index (i ∷ is) = i.output_index

unfoldable pub check_index : ℕ → List TxInput → Check
check_index height inputs =
    if ltb height (2 ^ 32)
    then reject (not (first_index inputs == height))
        (coinbase_bad_output_index height (first_index inputs))
    else err (coinbase_height_overflow height)

unfoldable pub check_witness : ℕ → List TxWitness → Check
check_witness height [] = err (coinbase_witness_count_mismatch 1 0)
check_witness height (w ∷ []) = do
  reject (not (height == 0) && ltb 0 (length w.witness)) coinbase_witness_not_empty
  reject (is_some w.redeemer) coinbase_has_redeemer
check_witness height (w ∷ v ∷ ws) = err (coinbase_witness_count_mismatch 1 (length (w ∷ v ∷ ws)))

-- The sum of the values.
unfoldable pub total_output : List TxOutput → ℕ
total_output [] = 0
total_output (o ∷ os) = o.value + total_output os

unfoldable pub check_reward : ℕ → List TxOutput → Check
check_reward expected_reward outputs =
    let total = total_output outputs in
    if ltb u64_max total
    then err (coinbase_wrong_reward expected_reward u64_max)
    else reject (not (total == expected_reward)) (coinbase_wrong_reward expected_reward total)

-- What is asked of the script of an output: `deserialize_program(script).is_ok()` and
-- `validate_output_script`, as Spendable.output_rules gives them.
pub record ScriptRules : Type 0 where
  pub is_program : Bytes → Bool
  pub validate_output_script : ℕ → TxOutput → Check

module _ (sha : Sha) (rules : ScriptRules) where
  unfoldable pub check_datum_hash : ℕ → Bytes → Option Hash256 → Check
  check_datum_hash idx datum none = ok tt
  check_datum_hash idx datum (some hash) =
      reject (not (bytes_eq (sha.sha256 datum) hash)) (datum_hash_mismatch idx)

  unfoldable pub check_datum : ℕ → Option Bytes → Option Hash256 → Check
  check_datum idx none datum_hash = ok tt
  check_datum idx (some datum) datum_hash = do
    reject (ltb max_datum_size (length datum)) (datum_oversized idx (length datum))
    check_datum_hash idx datum datum_hash

  unfoldable pub check_outputs : ℕ → List TxOutput → Check
  check_outputs idx [] = ok tt
  check_outputs idx (o ∷ os) =
      let rest = check_outputs (idx + 1) os in
      do
        reject (ltb o.value dust_threshold) (output_below_dust idx o.value)
        check_datum idx o.datum o.datum_hash
        rest

  unfoldable pub check_scripts : ℕ → List TxOutput → Check
  check_scripts idx [] = ok tt
  check_scripts idx (o ∷ os) =
      let rest = check_scripts (idx + 1) os in
      do
        if is_phase1_script o.script
            then reject (rules.is_program o.script) (ambiguous_script idx)
            else rules.validate_output_script idx o
        rest

  unfoldable pub validate_coinbase : Transaction → ℕ → ℕ → Check
  validate_coinbase tx height expected_reward = do
    check_sentinel tx.inputs
    check_tx_size tx
    check_index height tx.inputs
    check_witness height tx.witnesses
    check_outputs 0 tx.outputs
    check_scripts 0 tx.outputs
    check_reward expected_reward tx.outputs

  check_outputs-dust :
      (idx : ℕ) (os : List TxOutput)
      → check_outputs idx os ≡ ok tt
      → dust_threshold * length os ≤ total_output os
  unfolding check_outputs total_output
  check_outputs-dust idx [] h = omega arith
  check_outputs-dust idx (o ∷ os) h =
      let (u, large, rest) = >>=-eq-ok (reject (ltb o.value dust_threshold) _) _ h in
      let (v, datum, more) = >>=-eq-ok (check_datum idx o.datum o.datum_hash) _ rest in
      ground (
        arith,
        (reject-ok (ltb o.value dust_threshold) _).0 large,
        check_outputs-dust (idx + 1) os more,
      )

  check_sentinel-is_coinbase :
      (tx : Transaction) (inputs : List TxInput)
      → tx.inputs ≡ inputs
      → check_sentinel inputs ≡ ok tt
      → is_coinbase tx ≡ true
  unfolding check_sentinel is_coinbase
  check_sentinel-is_coinbase tx [] e h = cc
  check_sentinel-is_coinbase tx (i ∷ []) e h =
      rw (is_coinbase, e) ((reject-not (bytes_eq i.prev_tx_id zero_hash) _).0 h)
  check_sentinel-is_coinbase tx (i ∷ j ∷ is) e h = cc

  -- A coinbase that passes mints exactly the expected reward: it is a coinbase for the rest of the
  -- node, its index is the height of the block, the values of its outputs add up to the reward, which
  -- fits u64, and there are so few outputs that each can be worth 200.
  pub validate_coinbase_lem :
      (tx : Transaction) (height expected_reward : ℕ)
      → validate_coinbase tx height expected_reward ≡ ok tt
      → (is_coinbase tx ≡ true)
        × (first_index tx.inputs ≡ height)
        × (total_output tx.outputs ≡ expected_reward)
        × (expected_reward < 2 ^ 64)
        × (dust_threshold * length tx.outputs ≤ expected_reward)
  unfolding validate_coinbase check_index check_reward
  validate_coinbase_lem tx height reward h =
      let (u1, sentinel, r1) = >>=-eq-ok (check_sentinel tx.inputs) _ h in
      let (u2, size, r2) = >>=-eq-ok (check_tx_size tx) _ r1 in
      let (u3, index, r3) = >>=-eq-ok (check_index height tx.inputs) _ r2 in
      let (u4, witness, r4) = >>=-eq-ok (check_witness height tx.witnesses) _ r3 in
      let (u5, outputs, r5) = >>=-eq-ok (check_outputs 0 tx.outputs) _ r4 in
      let (u6, scripts, exact) = >>=-eq-ok (check_scripts 0 tx.outputs) _ r5 in
      let sum : (total_output tx.outputs ≡ reward) × (total_output tx.outputs < 2 ^ 64) =
        ground (arith, exact) in
      (
        check_sentinel-is_coinbase tx tx.inputs refl sentinel,
        ground (arith, index),
        sum.0,
        rw (← sum.0) sum.1,
        rw (← sum.0) (check_outputs-dust 0 tx.outputs outputs),
      )
