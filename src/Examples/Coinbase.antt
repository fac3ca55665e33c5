-- ===== src/Examples/Coinbase.antt =====
-- A coinbase that passes, and one that mints too much.
use exfer.Common.{
  ◌*◌, ◌^◌, ◌≤◌, ◌<◌, ◌≡◌, replicate, ◌∷◌, [], refl, ◌==◌, reject, true, false, length, ok, err,
  bytes_eq,
}
use exfer.Types.Transaction.{
  is_coinbase, serialize, serialize_output, serialize_header, serialize_body, serialize_witness,
  serialize_all, serialize_varbytes, serialize_optional, serialize_optional_hash, serialize_input,
}
use exfer.Consensus.Cost.{is_phase1_script}
use exfer.Consensus.Validation.Defs.{coinbase_wrong_reward, ill_typed_script}
use exfer.Consensus.Validation.Checks.{reject-ok}
use exfer.Consensus.Validation.Structure.{
  RefusesEmpty, check_transactions, validate_block_structure,
  validate_block_structure-validate_coinbase,
}
use exfer.Types.Block.{Block}
use exfer.Consensus.Validation.Header.{sized}
use exfer.Consensus.Validation.Coinbase.{
  ScriptRules, dust_threshold, first_index, total_output, check_sentinel, check_tx_size,
  check_index, check_witness, check_reward, check_datum_hash, check_datum, check_outputs,
  check_scripts, validate_coinbase, validate_coinbase_lem,
}
use exfer.Examples.Toy.{toy_sha, coinbase, spending}

-- No bytes are a program, and every script that has bytes is let through.
abbrev toy_rules : ScriptRules
toy_rules = record {
  is_program = λ script. false;
  validate_output_script = λ idx o. reject (length o.script == 0) (ill_typed_script idx);
}

coinbase_accepted : validate_coinbase toy_sha toy_rules coinbase 4 10_000_000_000 ≡ ok tt
unfolding validate_coinbase check_sentinel check_tx_size check_index check_witness check_reward
    check_datum_hash check_datum check_outputs check_scripts total_output sized is_phase1_script
    serialize serialize_header serialize_body serialize_all serialize_input serialize_output
    serialize_witness serialize_varbytes serialize_optional serialize_optional_hash bytes_eq
coinbase_accepted = refl

validate_coinbase_lem_example :
    (is_coinbase coinbase ≡ true)
    × (first_index coinbase.inputs ≡ 4)
    × (total_output coinbase.outputs ≡ 10_000_000_000)
    × (10_000_000_000 < 2 ^ 64)
    × (dust_threshold * length coinbase.outputs ≤ 10_000_000_000)
validate_coinbase_lem_example =
    validate_coinbase_lem toy_sha toy_rules coinbase 4 10_000_000_000 coinbase_accepted

-- One unit too much.
greedy_refused :
    check_reward 9_999_999_999 coinbase.outputs
    ≡ err (coinbase_wrong_reward 9_999_999_999 10_000_000_000)
unfolding check_reward total_output
greedy_refused = refl

toy_rules-RefusesEmpty : RefusesEmpty toy_sha toy_rules
toy_rules-RefusesEmpty idx o h = (reject-ok (length o.script == 0) (ill_typed_script idx)).0 h

abbrev fourth : Block
fourth = record {
  header = record {
    version = 1;
    height = 4;
    prev_block_id = replicate 32 2;
    timestamp = 130;
    difficulty_target = 1 ∷ replicate 31 0;
    nonce = 4;
    tx_root = replicate 32 8;
    state_root = replicate 32 9;
  };
  transactions = coinbase ∷ spending ∷ [];
}

validate_block_structure-validate_coinbase_example :
    validate_block_structure toy_sha toy_rules fourth
    ≡ check_transactions toy_sha toy_rules (spending ∷ [])
validate_block_structure-validate_coinbase_example =
    validate_block_structure-validate_coinbase toy_sha toy_rules fourth coinbase (spending ∷ [])
      10_000_000_000 toy_rules-RefusesEmpty refl coinbase_accepted
