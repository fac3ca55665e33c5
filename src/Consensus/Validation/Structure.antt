-- ===== src/Consensus/Validation/Structure.antt =====
-- consensus/validation.rs: `validate_block_structure`, the checks of a fork block before it is stored.
use exfer.Common.{
  ℕ, ◌+◌, ◌≡◌, refl, arith, false, not, Bool-cases, inl, inr, Option, none, some, List, [], ◌∷◌,
  map, length, ltb, ◌==◌, if◌then◌else◌, ok, err, reject, ◌>>◌, >>=-eq-ok,
}
use exfer.Types.Hash.{Sha}
use exfer.Types.Transaction.{TxOutput, TxWitness, OutPoint, Transaction, max_redeemer_size}
use exfer.Types.Block.{Block}
use exfer.Chain.State.Defs.{outpoint_key}
use exfer.Chain.State.Apply.{spent_outpoint}
use exfer.Consensus.Cost.{is_phase1_script}
use exfer.Consensus.Validation.Defs.{
  no_transactions, no_inputs, no_outputs, witness_count_mismatch, witness_oversized,
  redeemer_oversized, duplicate_input, output_below_dust, ill_typed_script, ambiguous_script,
}
use exfer.Consensus.Validation.Header.{Check, first_repeat}
use exfer.Consensus.Validation.Coinbase.{
  ScriptRules, dust_threshold, check_sentinel, check_index, check_witness, check_tx_size,
  check_datum, check_outputs, check_scripts, validate_coinbase,
}

-- types/mod.rs
abbrev pub max_witness_size : ℕ
max_witness_size = 65_535

unfoldable pub check_redeemer : ℕ → TxWitness → Check
check_redeemer idx w = elim w.redeemer [
  | none ↦ ok tt
  | some redeemer ↦
      reject (ltb max_redeemer_size (length redeemer)) (redeemer_oversized idx (length redeemer))
]

unfoldable pub check_witness_sizes : ℕ → List TxWitness → Check
check_witness_sizes idx [] = ok tt
check_witness_sizes idx (w ∷ ws) =
    let rest = check_witness_sizes (idx + 1) ws in
    do
      reject (ltb max_witness_size (length w.witness)) (witness_oversized idx (length w.witness))
      check_redeemer idx w
      rest

unfoldable pub refuse_duplicate : Option OutPoint → Check
refuse_duplicate none = ok tt
refuse_duplicate (some outpoint) = err (duplicate_input outpoint)

unfoldable pub check_dust : ℕ → List TxOutput → Check
check_dust idx [] = ok tt
check_dust idx (o ∷ os) =
    let rest = check_dust (idx + 1) os in
    do reject (ltb o.value dust_threshold) (output_below_dust idx o.value); rest

module _ (sha : Sha) (rules : ScriptRules) where
  unfoldable pub check_script_admissible : ℕ → TxOutput → Check
  check_script_admissible idx o = do
    reject (length o.script == 0) (ill_typed_script idx)
    if is_phase1_script o.script
        then reject (rules.is_program o.script) (ambiguous_script idx)
        else rules.validate_output_script idx o

  -- The loop over the outputs of the coinbase.
  unfoldable pub check_minted : ℕ → List TxOutput → Check
  check_minted idx [] = ok tt
  check_minted idx (o ∷ os) =
      let rest = check_minted (idx + 1) os in
      do
        reject (ltb o.value dust_threshold) (output_below_dust idx o.value)
        check_datum sha rules idx o.datum o.datum_hash
        check_script_admissible idx o
        rest

  -- The loop over the outputs of any other transaction.
  unfoldable pub check_created : ℕ → List TxOutput → Check
  check_created idx [] = ok tt
  check_created idx (o ∷ os) =
      let rest = check_created (idx + 1) os in
      do check_datum sha rules idx o.datum o.datum_hash; check_script_admissible idx o; rest

  unfoldable pub check_transaction : Transaction → Check
  check_transaction tx = do
    reject (length tx.inputs == 0) no_inputs
    reject (length tx.outputs == 0) no_outputs
    reject (not (length tx.witnesses == length tx.inputs))
        (witness_count_mismatch (length tx.inputs) (length tx.witnesses))
    check_witness_sizes 0 tx.witnesses
    check_created 0 tx.outputs
    check_tx_size tx
    refuse_duplicate (first_repeat (map spent_outpoint tx.inputs) [])
    check_dust 0 tx.outputs

  unfoldable pub check_transactions : List Transaction → Check
  check_transactions [] = ok tt
  check_transactions (tx ∷ txs) = let rest = check_transactions txs in do check_transaction tx; rest

  unfoldable pub check_structure : ℕ → List Transaction → Check
  check_structure height [] = err no_transactions
  check_structure height (coinbase ∷ txs) = do
    check_sentinel coinbase.inputs
    check_index height coinbase.inputs
    check_witness height coinbase.witnesses
    check_minted 0 coinbase.outputs
    check_transactions txs

  unfoldable pub validate_block_structure : Block → Check
  unfolding check_structure
  validate_block_structure block = check_structure block.header.height block.transactions

  -- `validate_output_script` refuses a script of no bytes.
  abbrev pub RefusesEmpty : Type 0
  RefusesEmpty =
      (idx : ℕ) (o : TxOutput)
      → rules.validate_output_script idx o ≡ ok tt
      → (length o.script == 0) ≡ false

  check_script_admissible-ok :
      RefusesEmpty
      → (idx : ℕ) (o : TxOutput)
      → (if is_phase1_script o.script
          then reject (rules.is_program o.script) (ambiguous_script idx)
          else rules.validate_output_script idx o)
        ≡ ok tt
      → check_script_admissible idx o ≡ ok tt
  unfolding check_script_admissible is_phase1_script
  check_script_admissible-ok refuses idx o h = elim (Bool-cases (length o.script == 32)) [
    | inl short ↦
        let some_bytes : (length o.script == 0) ≡ false = ground (arith, short) in rw some_bytes h
    | inr long ↦ rw (refuses idx o (rw long at h)) h
  ]

  -- The outputs that pass the two loops of `validate_coinbase` pass the one loop here.
  check_minted-ok :
      RefusesEmpty
      → (idx : ℕ) (os : List TxOutput) → check_outputs sha rules idx os ≡ ok tt
      → check_scripts sha rules idx os ≡ ok tt
      → check_minted idx os ≡ ok tt
  unfolding check_outputs check_scripts check_minted
  check_minted-ok refuses idx [] shapes scripts = refl
  check_minted-ok refuses idx (o ∷ os) shapes scripts =
      let (u, large, r) = >>=-eq-ok (reject (ltb o.value dust_threshold) _) _ shapes in
      let (v, datum, more) = >>=-eq-ok (check_datum sha rules idx o.datum o.datum_hash) _ r in
      let (w, script, others) = >>=-eq-ok (if is_phase1_script o.script then _ else _) _ scripts in
      rw (
        large,
        datum,
        check_script_admissible-ok refuses idx o script,
        check_minted-ok refuses (idx + 1) os more others,
      )

  -- On a block whose coinbase `validate_coinbase` accepts at the height of the header, whatever the
  -- reward, the structural check asks nothing more of the coinbase: its result is that of the checks
  -- of the other transactions. This is under the condition that `validate_output_script` accepts no
  -- empty script.
  pub validate_block_structure-validate_coinbase :
      (block : Block) (coinbase : Transaction) (txs : List Transaction) (expected_reward : ℕ)
      → RefusesEmpty
      → block.transactions ≡ coinbase ∷ txs
      → validate_coinbase sha rules coinbase block.header.height expected_reward ≡ ok tt
      → validate_block_structure block ≡ check_transactions txs
  unfolding validate_block_structure check_structure validate_coinbase
  validate_block_structure-validate_coinbase block cb txs reward refuses shape h =
      let height = block.header.height in
      let (u1, sentinel, r1) = >>=-eq-ok (check_sentinel cb.inputs) _ h in
      let (u2, size, r2) = >>=-eq-ok (check_tx_size cb) _ r1 in
      let (u3, index, r3) = >>=-eq-ok (check_index height cb.inputs) _ r2 in
      let (u4, witness, r4) = >>=-eq-ok (check_witness height cb.witnesses) _ r3 in
      let (u5, outputs, r5) = >>=-eq-ok (check_outputs sha rules 0 cb.outputs) _ r4 in
      let (u6, scripts, exact) = >>=-eq-ok (check_scripts sha rules 0 cb.outputs) _ r5 in
      rw (
        shape,
        check_structure,
        sentinel,
        index,
        witness,
        check_minted-ok refuses 0 cb.outputs outputs scripts,
      )
