-- ===== src/Consensus/Validation/Header.antt =====
-- consensus/validation.rs: `validate_block_header_inner`, check by check, and its two callers.
use exfer.Common.{
  ℕ, ◌+◌, Bool, true, false, not, Option, none, some, List, [], ◌∷◌, ◌++◌, map, length, ltb, leb,
  ◌==◌, bytes_eq, if◌then◌else◌, checked_add_u64, Result, ok, err, reject, ok_or, ◌>>=◌, ◌>>◌,
}
use exfer.Common.Map.{Set, Key, insert, contains, bytes_key}
use exfer.Types.Hash.{Hash256, Sha, zero_hash}
use exfer.Types.Cursor.{SerError}
use exfer.Types.Transaction.{OutPoint, Transaction, is_coinbase, tx_id}
use exfer.Types.Block.{BlockHeader, Block, block_id, serialize_block, max_block_size}
use exfer.Chain.State.Defs.{outpoint_key}
use exfer.Chain.State.Apply.{spent_outpoint}
use exfer.Consensus.Pow.{Argon2, PowError, verify_pow}
use exfer.Consensus.Validation.Defs.{
  ValidationError, invalid_version, invalid_height, invalid_prev_block_id, pow_failed,
  invalid_difficulty, timestamp_below_mtp, timestamp_too_far_ahead, timestamp_gap_too_large,
  invalid_tx_root, no_coinbase, block_too_large, duplicate_transaction, double_spend,
  non_coinbase_sentinel, tx_too_large, arithmetic_overflow, median_time_past, compute_tx_root,
}

-- types/mod.rs
abbrev pub version : ℕ
version = 1

abbrev pub max_timestamp_drift : ℕ
max_timestamp_drift = 120

abbrev pub max_timestamp_gap : ℕ
max_timestamp_gap = 604_800

abbrev pub Check : Type 0
Check = Result (Unit {0}) ValidationError

-- `.map_err(|_| ValidationError::TxTooLarge { size: 0 })?`
unfoldable pub sized : {A : Type 0} → Result A SerError → Result A ValidationError
sized (ok a) = ok a
sized (err e) = err (tx_too_large 0)

-- `if x > base.checked_add(room).ok_or(ArithmeticOverflow)? { return Err(..) }`
unfoldable pub check_at_most : ℕ → ℕ → ℕ → (ℕ → ValidationError) → Check
check_at_most x base room bad = do
  bound ← ok_or (checked_add_u64 base room) arithmetic_overflow
  reject (ltb bound x) (bad bound)

unfoldable pub check_height : Option BlockHeader → BlockHeader → Check
check_height none h = reject (not (h.height == 0)) (invalid_height 0 h.height)
check_height (some p) h = do
  expected ← ok_or (checked_add_u64 p.height 1) arithmetic_overflow
  reject (not (h.height == expected)) (invalid_height expected h.height)

unfoldable pub check_median : List ℕ → BlockHeader → Check
check_median [] h = ok tt
check_median (t ∷ ts) h =
    let mtp = median_time_past (t ∷ ts) in
    reject (leb h.timestamp mtp) (timestamp_below_mtp mtp h.timestamp)

unfoldable pub check_drift : Option ℕ → BlockHeader → Check
check_drift none h = ok tt
check_drift (some wc) h =
    check_at_most h.timestamp wc max_timestamp_drift
      (λ bound. timestamp_too_far_ahead bound h.timestamp)

unfoldable pub check_gap : Option BlockHeader → BlockHeader → Check
check_gap none h = ok tt
check_gap (some p) h =
    check_at_most h.timestamp p.timestamp max_timestamp_gap
      (λ bound. timestamp_gap_too_large p.timestamp h.timestamp)

unfoldable pub check_size : Block → Check
check_size block = do
  block_bytes ← sized (serialize_block block)
  reject (ltb max_block_size (length block_bytes)) (block_too_large (length block_bytes))

-- `for (i, tx) in transactions.iter().enumerate().skip(1)`
unfoldable pub no_sentinel : ℕ → List Transaction → Check
no_sentinel i [] = ok tt
no_sentinel i (tx ∷ txs) =
    let rest = no_sentinel (i + 1) txs in do reject (is_coinbase tx) (non_coinbase_sentinel i); rest

unfoldable pub check_coinbase : List Transaction → Check
check_coinbase [] = err no_coinbase
check_coinbase (tx ∷ txs) = do reject (not (is_coinbase tx)) no_coinbase; no_sentinel 1 txs

-- The first key that a set has when the loop reaches it: `if !seen.insert(k) { return Err(..) }`
unfoldable pub first_repeat : {K : Type 0} ⦃key : Key K⦄ → List K → Set K → Option K
first_repeat [] seen = none
first_repeat (k ∷ ks) seen =
    let rest = first_repeat ks (insert k tt seen) in if contains k seen then some k else rest

-- The outpoints that two nested loops over transactions and inputs reach.
unfoldable pub spent_by : List Transaction → List OutPoint
spent_by [] = []
spent_by (tx ∷ txs) = map spent_outpoint tx.inputs ++ spent_by txs

abbrev pub skip_first : {A : Type 0} → List A → List A
skip_first [] = []
skip_first (x ∷ xs) = xs

unfoldable pub refuse_repeat : Option OutPoint → Check
refuse_repeat none = ok tt
refuse_repeat (some outpoint) = err (double_spend outpoint)

unfoldable pub check_spends : List Transaction → Check
unfolding refuse_repeat
check_spends txs = refuse_repeat (first_repeat (spent_by (skip_first txs)) [])

-- `Ok(true) => {}, Ok(false) | Err(_) => return Err(PowFailed)`
unfoldable pub require_work : Result Bool PowError → Check
require_work (ok true) = ok tt
require_work (ok false) = err pow_failed
require_work (err e) = err pow_failed

module _ (sha : Sha) where
  unfoldable pub check_prev : Option BlockHeader → BlockHeader → Check
  check_prev none h = reject (not (bytes_eq h.prev_block_id zero_hash)) invalid_prev_block_id
  check_prev (some p) h =
      reject (not (bytes_eq h.prev_block_id (block_id sha p))) invalid_prev_block_id

  unfoldable pub check_ids : List Transaction → Set Hash256 → Check
  check_ids [] seen = ok tt
  check_ids (tx ∷ txs) seen = do
    id ← sized (tx_id sha tx)
    if contains id seen then err (duplicate_transaction id) else check_ids txs (insert id tt seen)

  unfoldable pub check_root : Block → Check
  check_root block = do
    computed ← sized (compute_tx_root sha block.transactions)
    reject (not (bytes_eq block.header.tx_root computed)) invalid_tx_root

  module _ (argon2 : Argon2) where
    unfoldable pub check_work : Bool → BlockHeader → Check
    check_work true h = ok tt
    check_work false h = require_work (verify_pow sha argon2 h)

    unfoldable pub validate_block_header_inner :
        Block → Option BlockHeader → List ℕ → Hash256 → Option ℕ → Bool → Check
    validate_block_header_inner block parent ancestor_timestamps expected_target wall_clock
          skip_pow =
        let h = block.header in
        do
          reject (not (h.version == version)) (invalid_version h.version)
          check_height parent h
          check_prev parent h
          reject (not (bytes_eq h.difficulty_target expected_target)) invalid_difficulty
          check_work skip_pow h
          check_median ancestor_timestamps h
          check_drift wall_clock h
          check_gap parent h
          check_size block
          check_coinbase block.transactions
          check_ids block.transactions []
          check_spends block.transactions
          check_root block

    unfoldable pub validate_block_header :
        Block → Option BlockHeader → List ℕ → Hash256 → Option ℕ → Check
    unfolding validate_block_header_inner
    validate_block_header block parent ancestor_timestamps expected_target wall_clock =
        validate_block_header_inner block parent ancestor_timestamps expected_target wall_clock
          false

    unfoldable pub validate_block_header_skip_pow :
        Block → Option BlockHeader → List ℕ → Hash256 → Option ℕ → Check
    unfolding validate_block_header_inner
    validate_block_header_skip_pow block parent ancestor_timestamps expected_target wall_clock =
        validate_block_header_inner block parent ancestor_timestamps expected_target wall_clock true
