-- ===== src/Examples/Whole.antt =====
-- A block whose transfer is validated and applied with its coinbase.
use exfer.Common.{
  ◌≡◌, Result, List, ok, err, refl, ap, arith, Bool-cases, inl, inr, [], ◌∷◌, ◌++◌, some,
  checked_add_u64, Bytes, replicate, bytes_eq,
}
use exfer.Common.Map.{lookup, insert, remove, bytes_before}
use exfer.Types.Hash.{zero_hash, domain_hash}
use exfer.Types.Transaction.{
  Transaction, is_coinbase, serialize_output, serialize_varbytes, serialize_optional,
  serialize_optional_hash, pubkey_hash_from_key, tx_id, signing_bytes, serialize_header,
  serialize_body, serialize_all, serialize_input, serialize, serialize_witness, sig_message,
}
use exfer.Chain.State.Apply.{apply_transaction, remove_input, remove_inputs, insert_outputs, id_of}
use exfer.Consensus.Validation.Coinbase.{
  validate_coinbase, check_tx_size, total_output, check_scripts, check_datum_hash, check_sentinel,
  check_index, check_witness, check_reward, check_datum, check_outputs,
}
use exfer.Consensus.Validation.Spendable.{output_rules}
use exfer.Consensus.Validation.Transaction.{
  validate_transaction, check_shape, check_datum_sizes, check_amounts, spendable_entries,
  spendable_entry, check_values, check_fee, verify_inputs, total_input,
}
use exfer.Examples.Chain.{log_of}
use exfer.Consensus.Reward.{block_reward, interp, lut}
use exfer.Types.Block.{Block}
use exfer.Chain.State.Defs.{
  outpoint_eq, get, UtxoMutation, UtxoSet, StateError, insert_utxo, remove_utxo, with_entry,
  without_entry, new, outpoint_before,
}
use exfer.Chain.State.Lookup.{AllSerialize}
use exfer.Consensus.Validation.Header.{spent_by, sized, first_repeat}
use exfer.Consensus.Validation.Distinct.{IsDistinct}
use exfer.Consensus.Validation.AssumeValid.{apply_block_transactions_assume_valid}
use exfer.Consensus.Validation.Unguarded.{
  validate_and_apply_block_transactions, validate_block_transactions, unguarded_agrees,
}
use exfer.Consensus.Validation.Replay.{assume_valid_replays}
use exfer.Consensus.Validation.Apply.{
  Applied, snapshot, with_spent, apply_block, after_coinbase, apply_rest, after_validation,
  after_snapshot, after_apply, settle, pay_coinbase, answer,
  validate_and_apply_block_transactions_atomic,
}
use exfer.Consensus.Validation.Whole.{IsAtomic, apply_block-IsAtomic}
use exfer.Examples.Toy.{toy_sha, toy_smt, pay, no_witness}
use exfer.Examples.Transfer.{toy_setting, wallet, wallet_outpoint, wallet_entry, transfer}
use exfer.Consensus.Validation.Undo.{apply_all}
use exfer.Chain.Index.{index, unindex, put_back}
use exfer.Consensus.Validation.Structure.{check_witness_sizes, check_redeemer, refuse_duplicate}
use exfer.Consensus.Cost.{
  min_fee_with_script_cost, tx_cost_with_script_cost, typecheck_cost, witness_deser_cost,
  datum_deser_cost, charge_bytes, charge_optional, ceil_div_u128, is_phase1_script,
}
use exfer.Consensus.Validation.Witness.{
  verify_input, validate_phase1_input, build_script_context, input_infos, is_weak_key, input_info,
  output_info,
}

-- Creates the reward of height 400 and the fee of `transfer`.
abbrev miner : Transaction
miner = record {
  inputs = record { prev_tx_id = zero_hash; output_index = 400 } ∷ [];
  outputs = pay 9_999_565_912 ∷ [];
  witnesses = no_witness ∷ [];
}

abbrev paying_block : Block
paying_block = record {
  header = record {
    version = 1;
    height = 400;
    prev_block_id = replicate 32 2;
    timestamp = 130;
    difficulty_target = 1 ∷ replicate 31 0;
    nonce = 4;
    tx_root = replicate 32 8;
    state_root = replicate 32 9;
  };
  transactions = miner ∷ transfer ∷ [];
}

paying_block-IsDistinct : IsDistinct (spent_by paying_block.transactions)
unfolding spent_by
paying_block-IsDistinct =
    ((λ e. absurd (omega (arith, ap (λ op. op.output_index) e)), tt), (tt, tt))

abbrev fits : Bytes
fits = elim (serialize_output wallet_entry.output) [ ok bytes ↦ bytes | err e ↦ [] ]

wallet-AllSerialize : AllSerialize toy_sha toy_smt wallet
unfolding lookup serialize_output serialize_varbytes serialize_optional serialize_optional_hash
    pubkey_hash_from_key domain_hash
wallet-AllSerialize op e there = elim (Bool-cases (outpoint_eq wallet_outpoint op)) [
  | inl same ↦ let old : wallet_entry ≡ e = cc (rw same at there) in rw (← old) (fits, refl)
  | inr other ↦ cc (rw other at there)
]

apply_block-IsAtomic_example :
    IsAtomic toy_sha toy_smt toy_setting paying_block wallet miner
      (validate_and_apply_block_transactions_atomic toy_sha toy_smt toy_setting paying_block wallet)
unfolding is_coinbase bytes_eq
apply_block-IsAtomic_example =
    apply_block-IsAtomic toy_sha toy_smt toy_setting paying_block wallet miner (transfer ∷ []) refl
      refl (refl, tt) paying_block-IsDistinct wallet-AllSerialize

abbrev miner_applied_to : Result (List UtxoMutation) StateError × UtxoSet toy_smt
miner_applied_to = apply_transaction toy_sha toy_smt miner 400 wallet

abbrev mined : UtxoSet toy_smt
mined = miner_applied_to.1

abbrev miner_log : List UtxoMutation
miner_log = log_of miner_applied_to.0

miner_applied : apply_transaction toy_sha toy_smt miner 400 wallet ≡ (ok miner_log, mined)
unfolding apply_all apply_transaction remove_input remove_inputs insert_outputs id_of tx_id
    signing_bytes serialize_header serialize_body serialize_all serialize_input serialize_output
    serialize_varbytes serialize_optional serialize_optional_hash is_coinbase domain_hash
    insert_utxo remove_utxo with_entry without_entry index unindex put_back lookup insert remove new
    outpoint_eq outpoint_before bytes_eq bytes_before
miner_applied = refl

transfer_accepted_later :
    validate_transaction toy_sha toy_smt toy_setting transfer mined 400 ≡ ok (1_000, (5_016, 0))
unfolding validate_transaction check_shape check_witness_sizes check_redeemer check_datum_sizes
    check_tx_size sized serialize serialize_header serialize_body serialize_all serialize_output
    serialize_varbytes serialize_optional serialize_witness serialize_input serialize_optional_hash
    refuse_duplicate first_repeat lookup check_amounts spendable_entries spendable_entry get
    outpoint_eq bytes_eq check_values min_fee_with_script_cost tx_cost_with_script_cost
    typecheck_cost witness_deser_cost datum_deser_cost charge_bytes charge_optional ceil_div_u128
    check_fee verify_inputs verify_input validate_phase1_input build_script_context input_infos
    sig_message signing_bytes pubkey_hash_from_key domain_hash total_output total_input
    check_scripts is_phase1_script is_weak_key input_info output_info check_datum_hash apply_all
    apply_transaction remove_input remove_inputs insert_outputs id_of tx_id is_coinbase insert_utxo
    remove_utxo with_entry without_entry index unindex put_back insert remove new outpoint_before
    bytes_before
transfer_accepted_later = refl

abbrev paid : UtxoSet toy_smt
paid = (apply_transaction toy_sha toy_smt transfer 400 mined).1

abbrev transfer_log : List UtxoMutation
transfer_log = log_of (apply_transaction toy_sha toy_smt transfer 400 mined).0

transfer_applied : apply_transaction toy_sha toy_smt transfer 400 mined ≡ (ok transfer_log, paid)
unfolding apply_all apply_transaction remove_input remove_inputs insert_outputs id_of tx_id
    signing_bytes serialize_header serialize_body serialize_all serialize_input serialize_output
    serialize_varbytes serialize_optional serialize_optional_hash is_coinbase domain_hash
    insert_utxo remove_utxo with_entry without_entry index unindex put_back lookup insert remove new
    outpoint_eq outpoint_before bytes_eq bytes_before
transfer_applied = refl

miner_accepted :
    validate_coinbase toy_sha (output_rules toy_setting.deserialize_program) miner 400 9_999_565_912
    ≡ ok tt
unfolding validate_coinbase check_sentinel check_tx_size check_index check_witness check_reward
    check_datum_hash check_datum check_outputs check_scripts total_output sized is_phase1_script
    serialize serialize_header serialize_body serialize_all serialize_input serialize_output
    serialize_witness serialize_varbytes serialize_optional serialize_optional_hash bytes_eq
miner_accepted = refl

abbrev before_loop : Applied
before_loop = record {
  mutations = miner_log;
  spent_utxos = [];
  spent_utxos_bytes = 0;
  applied_count = 1;
  total_fees = 1_000;
}

mined_found : get toy_smt wallet_outpoint mined ≡ some wallet_entry
unfolding apply_all apply_transaction remove_input remove_inputs insert_outputs id_of tx_id
    signing_bytes serialize_header serialize_body serialize_all serialize_input serialize_output
    serialize_varbytes serialize_optional serialize_optional_hash is_coinbase domain_hash
    insert_utxo remove_utxo with_entry without_entry index unindex put_back lookup insert remove new
    outpoint_eq outpoint_before bytes_eq bytes_before get
mined_found = refl

transfer_noted :
    snapshot toy_sha toy_smt transfer.inputs mined before_loop
    ≡ ok (with_spent wallet_outpoint wallet_entry before_loop)
unfolding snapshot with_spent serialize_output serialize_varbytes serialize_optional
    serialize_optional_hash pubkey_hash_from_key domain_hash
transfer_noted = rw (snapshot, mined_found) refl

mined_reward : checked_add_u64 (block_reward 400) 1_000 ≡ some 9_999_565_912
unfolding block_reward interp lut
mined_reward = refl

-- The whole run.
paying_block_applied :
    validate_and_apply_block_transactions_atomic toy_sha toy_smt toy_setting paying_block wallet
    ≡ (ok (1_000, miner_log ++ transfer_log), paid)
unfolding validate_and_apply_block_transactions_atomic apply_block after_coinbase apply_rest
    after_validation after_snapshot after_apply settle pay_coinbase answer with_spent
paying_block_applied =
    rw
      (
        miner_applied, transfer_accepted_later, transfer_noted, transfer_applied, settle,
        mined_reward, pay_coinbase, miner_accepted,
      )
      refl

assume_valid_replays_example :
    apply_block_transactions_assume_valid toy_sha toy_smt paying_block wallet
    ≡ (ok (1_000, miner_log ++ transfer_log), paid)
assume_valid_replays_example =
    assume_valid_replays toy_sha toy_smt toy_setting paying_block wallet paid
      (1_000, miner_log ++ transfer_log) paying_block_applied

unguarded_agrees_example :
    (validate_and_apply_block_transactions toy_sha toy_smt toy_setting paying_block wallet
      ≡ (ok 1_000, paid))
    × (validate_block_transactions toy_sha toy_smt toy_setting paying_block wallet ≡ ok 1_000)
unguarded_agrees_example =
    unguarded_agrees toy_sha toy_smt toy_setting paying_block wallet paid
      (1_000, miner_log ++ transfer_log) paying_block_applied
