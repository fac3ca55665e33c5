-- ===== src/Examples/Validation.antt =====
-- The theorems on block validation, at concrete inputs.
use exfer.Common.{
  ℕ, ◌*◌, ◌<◌, ◌≤◌, ◌≡◌, ◌↔◌, refl, arith, false, some, List, [], ◌∷◌, ltb, ◌==◌, bytes_eq,
  replicate, Result, ok, err,
}
use exfer.Common.Map.{bytes_before, lookup, insert}
use exfer.Types.Hash.{Hash256, domain_hash}
use exfer.Types.Merkle.{merkle_root, reduce, next_level, pad_even, combine}
use exfer.Types.Transaction.{
  Transaction, serialize, serialize_output, serialize_header, serialize_body, serialize_witness,
  serialize_all, serialize_varbytes, serialize_optional, serialize_optional_hash, serialize_input,
  signing_bytes, tx_id, wtx_id, is_coinbase,
}
use exfer.Types.Block.{BlockHeader, Block, serialize_block, serialize_block_header, block_id}
use exfer.Chain.State.Defs.{outpoint_eq, outpoint_before}
use exfer.Consensus.Pow.{Argon2, compute_pow, verify_pow}
use exfer.Consensus.Validation.Defs.{
  double_spend, median_time_past, sort, insert_sorted, compute_tx_root, hash_all,
}
use exfer.Consensus.Validation.Header.{
  check_at_most, check_height, check_median, check_drift, check_gap, check_size, check_coinbase,
  no_sentinel, check_spends, refuse_repeat, first_repeat, spent_by, check_prev, check_ids,
  check_root, check_work, require_work, sized, validate_block_header_inner,
}
use exfer.Consensus.Validation.Rules.{IsAccepted}
use exfer.Consensus.Validation.Accepts.{validate_block_header_inner-IsAccepted}
use exfer.Consensus.Validation.Median.{count, median_time_past_lem}
use exfer.Examples.Toy.{toy_sha, spending, coinbase}

-- Every header has the same hash.
abbrev toy_argon2 : Argon2
toy_argon2 memory rounds lanes size password salt = ok (replicate 32 0)

abbrev past_times : List ℕ
past_times = 100 ∷ 90 ∷ 95 ∷ 80 ∷ 85 ∷ 70 ∷ 75 ∷ 60 ∷ 65 ∷ 50 ∷ 55 ∷ []

abbrev toy_parent : BlockHeader
toy_parent = record {
  version = 1;
  height = 5;
  prev_block_id = replicate 32 2;
  timestamp = 100;
  difficulty_target = 1 ∷ replicate 31 0;
  nonce = 3;
  tx_root = replicate 32 8;
  state_root = replicate 32 9;
}

abbrev root_of : {E : Type 0} → Result Hash256 E → Hash256
root_of (ok root) = root
root_of (err e) = []

abbrev block_of : List Transaction → Block
block_of txs = record {
  header = record {
    version = 1;
    height = 6;
    prev_block_id = block_id toy_sha toy_parent;
    timestamp = 130;
    difficulty_target = 1 ∷ replicate 31 0;
    nonce = 4;
    tx_root = root_of (compute_tx_root toy_sha txs);
    state_root = replicate 32 9;
  };
  transactions = txs;
}

-- The block passes, with the proof of work checked.
block_accepted :
    validate_block_header_inner toy_sha toy_argon2
      (block_of (coinbase ∷ spending ∷ []))
      (some toy_parent)
      past_times
      (1 ∷ replicate 31 0)
      (some 20)
      false
    ≡ ok tt
unfolding validate_block_header_inner check_at_most check_height check_median check_drift check_gap
    check_size check_coinbase no_sentinel check_spends refuse_repeat first_repeat spent_by
    check_prev check_ids check_root check_work require_work sized compute_pow verify_pow
    compute_tx_root hash_all median_time_past sort insert_sorted lookup insert bytes_before
    outpoint_eq outpoint_before is_coinbase serialize_block block_id serialize_block_header tx_id
    wtx_id signing_bytes serialize serialize_header serialize_body serialize_all serialize_input
    serialize_output serialize_witness serialize_varbytes serialize_optional serialize_optional_hash
    domain_hash merkle_root reduce next_level pad_even combine bytes_eq
block_accepted = refl

validate_block_header_inner-IsAccepted_example :
    (validate_block_header_inner toy_sha toy_argon2
        (block_of (coinbase ∷ spending ∷ []))
        (some toy_parent)
        past_times
        (1 ∷ replicate 31 0)
        (some 20)
        false
      ≡ ok tt)
    ↔ IsAccepted toy_sha toy_argon2
        (block_of (coinbase ∷ spending ∷ []))
        (some toy_parent)
        past_times
        (1 ∷ replicate 31 0)
        (some 20)
        false
validate_block_header_inner-IsAccepted_example =
    validate_block_header_inner-IsAccepted toy_sha toy_argon2 (block_of (coinbase ∷ spending ∷ []))
      (some toy_parent) past_times (1 ∷ replicate 31 0) (some 20) false

median_time_past_lem_example :
    (0 < count (λ t. t == median_time_past past_times) past_times)
    × (2 * count (λ t. ltb t (median_time_past past_times)) past_times ≤ 11)
    × (2 * count (λ t. ltb (median_time_past past_times) t) past_times < 11)
median_time_past_lem_example = median_time_past_lem past_times (omega arith)

median_of_times : median_time_past past_times ≡ 75
unfolding median_time_past sort insert_sorted
median_of_times = refl

abbrev twice : Block
twice = block_of (coinbase ∷ spending ∷ record spending { outputs = [] } ∷ [])

-- Two transactions that spend the same outpoint.
double_spend_refused :
    check_spends twice.transactions
    ≡ err (double_spend (record { tx_id = replicate 32 3; output_index = 1 }))
unfolding check_spends refuse_repeat first_repeat spent_by lookup insert outpoint_eq outpoint_before
    bytes_before bytes_eq
double_spend_refused = refl
