-- ===== src/Consensus/Validation/Rules.antt =====
-- consensus/validation.rs: the rules of `validate_block_header_inner`, stated of the block.
use exfer.Common.{
  ℕ, ◌+◌, ◌^◌, ◌≤◌, ◌<◌, ◌≡◌, Bool, true, false, Option, none, some, List, [], ◌∷◌, Bytes, All,
  length, ok,
}
use exfer.Common.Map.{bytes_key}
use exfer.Types.Hash.{Hash256, Sha, zero_hash}
use exfer.Types.Merkle.{merkle_root}
use exfer.Types.Transaction.{Transaction, is_coinbase, wtx_id}
use exfer.Types.Block.{BlockHeader, Block, block_id, serialize_block, max_block_size}
use exfer.Chain.State.Defs.{outpoint_key}
use exfer.Consensus.Pow.{Argon2, verify_pow}
use exfer.Consensus.Validation.Defs.{hash_all, median_time_past, ds_txroot}
use exfer.Consensus.Validation.Header.{max_timestamp_drift, max_timestamp_gap, spent_by, skip_first}
use exfer.Consensus.Validation.Distinct.{IsDistinct, HasIds}

-- The first transaction is a coinbase, and no other is.
abbrev pub HasCoinbase : List Transaction → Type 0
HasCoinbase [] = ⊥
HasCoinbase (tx ∷ txs) = (is_coinbase tx ≡ true) × All (λ t. is_coinbase t ≡ false) txs

-- A sum of u64 that does not overflow bounds a number.
abbrev pub IsWithin : ℕ → ℕ → ℕ → Type 0
IsWithin x base room = (base + room < 2 ^ 64) × (x ≤ base + room)

abbrev pub IsNextHeight : Option BlockHeader → BlockHeader → Type 0
IsNextHeight none h = h.height ≡ 0
IsNextHeight (some p) h = (p.height + 1 < 2 ^ 64) × (h.height ≡ p.height + 1)

abbrev pub IsCloseTo : Option BlockHeader → BlockHeader → Type 0
IsCloseTo none h = Unit
IsCloseTo (some p) h = IsWithin h.timestamp p.timestamp max_timestamp_gap

abbrev pub IsNotAhead : Option ℕ → BlockHeader → Type 0
IsNotAhead none h = Unit
IsNotAhead (some wc) h = IsWithin h.timestamp wc max_timestamp_drift

abbrev pub IsAfterMedian : List ℕ → BlockHeader → Type 0
IsAfterMedian [] h = Unit
IsAfterMedian (t ∷ ts) h = median_time_past (t ∷ ts) < h.timestamp

abbrev pub HasSize : Block → Type 0
HasSize block =
    (bytes : Bytes) × (serialize_block block ≡ ok bytes) × (length bytes ≤ max_block_size)

module _ (sha : Sha) where
  abbrev pub IsLinked : Option BlockHeader → BlockHeader → Type 0
  IsLinked none h = h.prev_block_id ≡ zero_hash
  IsLinked (some p) h = h.prev_block_id ≡ block_id sha p

  abbrev pub HasRoot : Block → Type 0
  HasRoot block =
      (wtx_ids : List Hash256) × (hash_all (wtx_id sha) block.transactions ≡ ok wtx_ids)
      × (block.header.tx_root ≡ merkle_root sha ds_txroot wtx_ids)

  abbrev pub HasWork : Argon2 → Bool → BlockHeader → Type 0
  HasWork argon2 true h = Unit
  HasWork argon2 false h = verify_pow sha argon2 h ≡ ok true

-- What the rules ask of a block, each in terms of the block and not of the loops.
pub record IsAccepted (sha : Sha) (argon2 : Argon2) (block : Block) (parent : Option BlockHeader)
    (ancestor_timestamps : List ℕ) (expected_target : Hash256) (wall_clock : Option ℕ)
    (skip_pow : Bool) : Type 0 where
  pub is_version : block.header.version ≡ 1
  pub height : IsNextHeight parent block.header
  pub linked : IsLinked sha parent block.header
  pub target : block.header.difficulty_target ≡ expected_target
  pub work : HasWork sha argon2 skip_pow block.header
  pub after_median : IsAfterMedian ancestor_timestamps block.header
  pub not_ahead : IsNotAhead wall_clock block.header
  pub close : IsCloseTo parent block.header
  pub size : HasSize block
  pub coinbase : HasCoinbase block.transactions
  pub ids : HasIds sha block.transactions IsDistinct
  pub spends : IsDistinct (spent_by (skip_first block.transactions))
  pub root : HasRoot sha block
