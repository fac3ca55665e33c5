-- ===== src/Examples/Consensus.antt =====
-- The theorems on the difficulty, the reward and the cost, at concrete inputs.
use exfer.Common.{
  List, ℕ, ◌+◌, ◌-◌, ◌*◌, ◌/◌, ◌^◌, ◌≤◌, ◌<◌, ◌≡◌, refl, arith, none, some, [], ◌∷◌, Bytes,
  replicate, ok, err, min, max, bytes_eq,
}
use exfer.Common.Map.{lookup, insert, bytes_before}
use exfer.Types.Hash.{zero_hash}
use exfer.Types.Block.{BlockHeader}
use exfer.Types.Transaction.{
  sig_message, serialize, serialize_witness, signing_bytes, serialize_header, serialize_body,
  serialize_all, serialize_input, serialize_output, serialize_varbytes, serialize_optional,
  serialize_optional_hash,
}
use exfer.Consensus.Digits.{value}
use exfer.Consensus.Difficulty.{
  IsU256, number, add_work, mul_div_256, retarget, clamped_time, expected_time, HeaderSource,
  new_overlay, overlay_header, expected_difficulty, expected_difficulty_overlay, require_header,
  insert_header,
}
use exfer.Consensus.Difficulty.Addition.{number-add_work}
use exfer.Consensus.Difficulty.Scaling.{number-mul_div_256, IsU256-mul_div_256}
use exfer.Consensus.Difficulty.Bounds.{number-retarget, clamped_time_bounds, retarget_below_quarter}
use exfer.Consensus.Difficulty.Overlay.{
  insert_all, stored_all, expected_difficulty_overlay-expected_difficulty,
}
use exfer.Consensus.Reward.{block_reward}
use exfer.Consensus.Reward.Schedule.{block_reward_antitone}
use exfer.Consensus.Cost.{
  tx_cost, min_fee, ceil_div_u128, witness_deser_cost, charge_bytes, charge_optional,
  datum_deser_cost, typecheck_cost, is_phase1_script,
}
use exfer.Types.Block.{block_id}
use exfer.Examples.Toy.{toy_sha, spending}

abbrev start : Bytes
start = 1 ∷ replicate 31 0

abbrev top : Bytes
top = replicate 32 255

start-IsU256 : IsU256 start
start-IsU256 = record { size = refl; digits = omega arith }

top-IsU256 : IsU256 top
top-IsU256 = record { size = refl; digits = omega arith }

start-number : number start ≡ 2 ^ 248
unfolding value
start-number = refl

number-add_work_example :
    number (add_work start top) ≡ min (number start + number top) (2 ^ 256 - 1)
number-add_work_example = number-add_work start top start-IsU256 top-IsU256

number-mul_div_256_example : number (mul_div_256 top 3 2) ≡ min (number top * 3 / 2) (2 ^ 256 - 1)
number-mul_div_256_example = number-mul_div_256 top 3 2 top-IsU256 (omega arith)

IsU256-mul_div_256_example : IsU256 (mul_div_256 start 3 7)
IsU256-mul_div_256_example = IsU256-mul_div_256 start 3 7 start-IsU256 (omega arith)

number-retarget_example :
    number (retarget start 50000)
    ≡ max 1 (min (number start * clamped_time 50000 / expected_time) (2 ^ 256 - 1))
number-retarget_example = number-retarget start 50000 start-IsU256

clamped_time_bounds_example : (10797 ≤ clamped_time 5) × (clamped_time 5 ≤ 172760)
clamped_time_bounds_example = clamped_time_bounds 5

retarget_below_quarter_example : number (retarget start 10) < number start / 4
retarget_below_quarter_example =
    retarget_below_quarter start 10 start-IsU256 (omega (arith, start-number)) (omega arith)

block_reward_antitone_example : block_reward 6307200 ≤ block_reward 6307199
block_reward_antitone_example = block_reward_antitone 6307199

abbrev header_at : ℕ → BlockHeader
header_at height = record {
  version = 1;
  height = height;
  prev_block_id = replicate 32 1;
  timestamp = 1_700_000_000 + height;
  difficulty_target = start;
  nonce = 0;
  tx_root = zero_hash;
  state_root = zero_hash;
}

abbrev no_storage : HeaderSource
no_storage id = ok none

-- The second header of a chain that the storage does not have.
abbrev second_header : BlockHeader
second_header = record (header_at 8) { prev_block_id = block_id toy_sha (header_at 7) }

abbrev ahead : List BlockHeader
ahead = second_header ∷ header_at 7 ∷ []

expected_difficulty_overlay-expected_difficulty_example :
    expected_difficulty_overlay
      (insert_all toy_sha ahead (new_overlay no_storage))
      (block_id toy_sha second_header)
      9
    ≡ expected_difficulty (stored_all toy_sha ahead no_storage) (block_id toy_sha second_header) 9
expected_difficulty_overlay-expected_difficulty_example =
    expected_difficulty_overlay-expected_difficulty toy_sha ahead no_storage
      (block_id toy_sha second_header) 9

-- The overlay is read.
found_ahead :
    expected_difficulty_overlay
      (insert_all toy_sha ahead (new_overlay no_storage))
      (block_id toy_sha second_header)
      9
    ≡ ok start
unfolding expected_difficulty_overlay overlay_header insert_all new_overlay require_header lookup
    insert_header insert bytes_eq block_id bytes_before
found_ahead = refl

abbrev cost_of : ℕ
cost_of = elim (tx_cost zero_hash spending) [ some c ↦ c | none ↦ 0 ]

abbrev fee_of : ℕ
fee_of = elim (min_fee zero_hash spending) [ some c ↦ c | none ↦ 0 ]

abbrev message_of : Bytes
message_of = elim (sig_message zero_hash spending) [ ok m ↦ m | err e ↦ [] ]

spending_message : sig_message zero_hash spending ≡ ok message_of
unfolding sig_message signing_bytes serialize_header serialize_body serialize_all serialize_input
    serialize_output serialize_varbytes serialize_optional serialize_optional_hash
spending_message = refl

spending_fee : min_fee zero_hash spending ≡ some fee_of
unfolding min_fee tx_cost ceil_div_u128 sig_message signing_bytes serialize_header serialize_body
    serialize_all serialize_input serialize_output serialize_varbytes serialize_optional
    serialize_optional_hash witness_deser_cost charge_bytes charge_optional datum_deser_cost
    serialize serialize_witness typecheck_cost is_phase1_script
spending_fee = refl
