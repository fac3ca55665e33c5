-- ===== src/Consensus/Validation/Accepts.antt =====
-- consensus/validation.rs: which blocks the header checks accept.
use exfer.Common.{ℕ, ◌≡◌, ◌↔◌, Bool, Option, List, ok}
use exfer.Common.Map.{bytes_key}
use exfer.Types.Hash.{Hash256, Sha}
use exfer.Types.Block.{BlockHeader, Block}
use exfer.Chain.State.Defs.{outpoint_key}
use exfer.Consensus.Pow.{Argon2}
use exfer.Consensus.Validation.Header.{version, validate_block_header_inner}
use exfer.Consensus.Validation.Distinct.{check_ids-IsDistinct}
use exfer.Consensus.Validation.Rules.{IsAccepted}
use exfer.Consensus.Validation.Checks.{
  both, reject-bytes, reject-nat, check_height-IsNextHeight, check_median-IsAfterMedian,
  check_drift-IsNotAhead, check_gap-IsCloseTo, check_size-HasSize, check_coinbase-HasCoinbase,
  check_spends-IsDistinct, check_prev-IsLinked, check_root-HasRoot, check_work-HasWork,
}

module _ (sha : Sha) (argon2 : Argon2) where
  -- A run of the checks returns Ok exactly on the blocks that the rules accept. The version is 1;
  -- the height is one more than the parent's, which is less than 2^64, or 0 without a parent; the
  -- previous identifier is the parent's, or zero; the target is the expected one; unless the
  -- proof of work is skipped, it verifies; the time is above the median of the given timestamps,
  -- where there are any, at most 120 s after the wall clock, where one is given, and at most
  -- 604,800 s after the parent's, those sums below 2^64; the block serializes to at most 4 MiB; the
  -- first transaction is a coinbase and no other is; the identifiers of all transactions exist
  -- and differ pairwise, as do the outpoints that all inputs but the coinbase's spend; and the
  -- transaction root of the header is the Merkle root of the witness hashes.
  pub validate_block_header_inner-IsAccepted :
      (block : Block) (parent : Option BlockHeader) (ancestor_timestamps : List ℕ)
      (expected_target : Hash256) (wall_clock : Option ℕ) (skip_pow : Bool)
      → (validate_block_header_inner sha argon2 block parent ancestor_timestamps expected_target
            wall_clock skip_pow
          ≡ ok tt)
        ↔ IsAccepted sha argon2 block parent ancestor_timestamps expected_target wall_clock skip_pow
  unfolding validate_block_header_inner
  validate_block_header_inner-IsAccepted block parent ts target clock skip =
      let h = block.header in
      let txs = block.transactions in
      let (there, back) = both (reject-nat h.version version _) (
        both (check_height-IsNextHeight parent h) (
          both (check_prev-IsLinked sha parent h) (
            both (reject-bytes h.difficulty_target target _) (
              both (check_work-HasWork sha argon2 skip h) (
                both (check_median-IsAfterMedian ts h) (
                  both (check_drift-IsNotAhead clock h) (
                    both (check_gap-IsCloseTo parent h) (
                      both (check_size-HasSize block) (
                        both (check_coinbase-HasCoinbase txs) (
                          both (check_ids-IsDistinct sha txs) (
                            both (check_spends-IsDistinct txs)
                              (check_root-HasRoot sha block)))))))))))) in
      (
        λ e.
            let (
              v,
              (
                height,
                (
                  linked,
                  (t, (work, (median, (drift, (gap, (size, (coinbase, (ids, (spends, root))))))))),
                ),
              ),
            ) =
              there e in
            record {
              is_version = v;
              height = height;
              linked = linked;
              target = t;
              work = work;
              after_median = median;
              not_ahead = drift;
              close = gap;
              size = size;
              coinbase = coinbase;
              ids = ids;
              spends = spends;
              root = root;
            },
        λ a. back (
          a.is_version,
          (
            a.height,
            (
              a.linked,
              (
                a.target,
                (
                  a.work,
                  (
                    a.after_median,
                    (a.not_ahead, (a.close, (a.size, (a.coinbase, (a.ids, (a.spends, a.root)))))),
                  ),
                ),
              ),
            ),
          ),
        ),
      )
