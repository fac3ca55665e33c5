-- ===== src/Examples/Transfer.antt =====
-- A transfer that is validated and applied.
use exfer.Common.{
  ap, ℕ, ◌<◌, ◌≡◌, refl, arith, true, false, Bool-cases, inl, inr, none, some, List, [], ◌∷◌, ◌++◌,
  Bytes, replicate, ok, bytes_eq,
}
use exfer.Common.Map.{lookup}
use exfer.Types.Hash.{Hash256, domain_hash}
use exfer.Types.Transaction.{
  Transaction, OutPoint, pubkey_hash_from_key, tx_id, serialize, serialize_header, serialize_body,
  serialize_all, serialize_output, serialize_varbytes, serialize_optional, serialize_witness,
  serialize_input, serialize_optional_hash, sig_message, signing_bytes,
}
use exfer.Chain.State.Defs.{
  outpoint_key, outpoint_eq_iff, outpoint_eq, UtxoSet, UtxoEntry, UtxoMutation, new, get,
}
use exfer.Chain.State.Apply.{created_outpoint, apply_transaction}
use exfer.Consensus.Validation.Witness.{
  Setting, verify_input, validate_phase1_input, build_script_context, input_infos, is_weak_key,
  input_info, output_info,
}
use exfer.Consensus.Validation.Transaction.{
  validate_transaction, check_shape, check_datum_sizes, check_amounts, spendable_entries,
  spendable_entry, check_values, check_fee, verify_inputs, total_input,
}
use exfer.Consensus.Validation.Accounts.{IsPaid, validate_transaction-IsPaid}
use exfer.Consensus.Validation.Progress.{apply_transaction-validate_transaction}
use exfer.Examples.Toy.{toy_sha, toy_smt, pay}
use exfer.Consensus.Validation.Structure.{check_witness_sizes, check_redeemer, refuse_duplicate}
use exfer.Consensus.Validation.Coinbase.{
  check_tx_size, total_output, check_scripts, check_datum_hash,
}
use exfer.Consensus.Validation.Header.{sized, first_repeat}
use exfer.Consensus.Cost.{
  min_fee_with_script_cost, tx_cost_with_script_cost, typecheck_cost, witness_deser_cost,
  datum_deser_cost, charge_bytes, charge_optional, ceil_div_u128, is_phase1_script,
}

-- Every key and every signature is good, and no bytes are a program.
abbrev pub toy_setting : Setting
toy_setting = record {
  host = record { heap_size = λ v. 1; value_size = 1; eval_jet = λ jet v c. none };
  decompress = λ key. some false;
  verify = λ key message signature. true;
  deserialize_program = λ script. none;
  serialize_program = λ program. [];
  genesis_id = replicate 32 6;
  coinbase_maturity = 360;
}

abbrev toy_key : Bytes
toy_key = replicate 32 5

abbrev pub wallet_outpoint : OutPoint
wallet_outpoint = record { tx_id = replicate 32 3; output_index = 1 }

abbrev pub wallet_entry : UtxoEntry
wallet_entry = record {
  output = record {
    value = 10_000;
    script = pubkey_hash_from_key toy_sha toy_key;
    datum = none;
    datum_hash = none;
  };
  height = 2;
  is_coinbase = true;
}

-- A mature coinbase of a wallet.
abbrev pub wallet : UtxoSet toy_smt
wallet = record (new toy_smt) { utxos = (wallet_outpoint, wallet_entry) ∷ [] }

abbrev pub transfer : Transaction
transfer = record {
  inputs = record { prev_tx_id = replicate 32 3; output_index = 1 } ∷ [];
  outputs = pay 9_000 ∷ [];
  witnesses = record { witness = toy_key ++ replicate 64 1; redeemer = none } ∷ [];
}

pub transfer_accepted :
    validate_transaction toy_sha toy_smt toy_setting transfer wallet 400 ≡ ok (1_000, (5_016, 0))
unfolding validate_transaction check_shape check_witness_sizes check_redeemer check_datum_sizes
    check_tx_size sized serialize serialize_header serialize_body serialize_all serialize_output
    serialize_varbytes serialize_optional serialize_witness serialize_input serialize_optional_hash
    refuse_duplicate first_repeat lookup check_amounts spendable_entries spendable_entry get
    outpoint_eq bytes_eq check_values min_fee_with_script_cost tx_cost_with_script_cost
    typecheck_cost witness_deser_cost datum_deser_cost charge_bytes charge_optional ceil_div_u128
    check_fee verify_inputs verify_input validate_phase1_input build_script_context input_infos
    sig_message signing_bytes pubkey_hash_from_key domain_hash total_output total_input
    check_scripts is_phase1_script is_weak_key input_info output_info check_datum_hash
transfer_accepted = refl

validate_transaction-IsPaid_example :
    IsPaid toy_sha toy_smt toy_setting transfer wallet 400 1_000 5_016 0
validate_transaction-IsPaid_example =
    validate_transaction-IsPaid toy_sha toy_smt toy_setting transfer wallet 400 1_000 5_016 0
      transfer_accepted

wallet_free :
    (id : Hash256) (k : ℕ)
    → tx_id toy_sha transfer ≡ ok id
    → k < 1
    → lookup (created_outpoint id k) wallet.utxos ≡ none
unfolding lookup
wallet_free id k named h = elim (Bool-cases (outpoint_eq wallet_outpoint (created_outpoint id k))) [
  | inr other ↦ rw other
  | inl same ↦
      let e = (outpoint_eq_iff wallet_outpoint (created_outpoint id k)).0 same in
      absurd (omega (arith, h, ap (λ op. op.output_index) e))
]

apply_transaction-validate_transaction_example :
    (ms : List UtxoMutation) × (s' : UtxoSet toy_smt) × (apply_transaction toy_sha toy_smt transfer
        400 wallet
      ≡ (ok ms, s'))
apply_transaction-validate_transaction_example =
    apply_transaction-validate_transaction toy_sha toy_smt toy_setting transfer wallet 400 1_000
      5_016 0 transfer_accepted wallet_free
