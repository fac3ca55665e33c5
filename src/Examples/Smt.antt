-- ===== src/Examples/Smt.antt =====
-- Runs of the sparse Merkle tree of chain/smt.rs, and its theorems at concrete inputs.
use exfer.Common.{◌≡◌, refl, arith, none, some, List, [], ◌∷◌, replicate, bytes_eq, bytes_eq_iff}
use exfer.Types.Hash.{Hash256}
use exfer.Examples.Toy.{toy_sha}
use exfer.Chain.Smt.Bits.{get_bit, smt_depth, first_different_bit, first_different_from}
use exfer.Chain.Smt.Node.{find_leaf}
use exfer.Chain.Smt.Count.{size}
use exfer.Chain.Smt.Level.{leaves}
use exfer.Chain.Smt.Batch.{compute_root_recursive}
use exfer.Chain.Smt.Update.{new}
use exfer.Chain.Smt.Runs.{Op, put, delete, run, replay, run-replay, root_hash-run}

abbrev low : Hash256
low = replicate 32 0

abbrev high : Hash256
high = 128 ∷ replicate 31 0

abbrev near : Hash256
near = 128 ∷ 1 ∷ replicate 30 0

first_bit : get_bit high 0 ≡ 1
unfolding get_bit
first_bit = refl

first_different : first_different_bit high near 0 ≡ 15
unfolding first_different_bit first_different_from get_bit
first_different = refl

-- Three keys, one of them removed and one of them written twice.
abbrev calls : List Op
calls =
    put low (replicate 32 1)
    ∷ put high (replicate 32 2)
    ∷ put near (replicate 32 3)
    ∷ put low (replicate 32 4)
    ∷ delete high
    ∷ []

-- The same map by fewer calls.
abbrev fewer_calls : List Op
fewer_calls = put near (replicate 32 3) ∷ put low (replicate 32 4) ∷ []

run-replay_example :
    (find_leaf near (run toy_sha calls (new toy_sha)).root ≡ some (replicate 32 3))
    × ((run toy_sha calls (new toy_sha)).root_hash
        ≡ compute_root_recursive toy_sha
            (leaves (run toy_sha calls (new toy_sha)).root)
            smt_depth
            0)
    × ((run toy_sha calls (new toy_sha)).leaf_count ≡ size (run toy_sha calls (new toy_sha)).root)
unfolding bytes_eq
run-replay_example = run-replay toy_sha calls near (omega arith)

same_map : (j : Hash256) → replay calls (λ k. none) j ≡ replay fewer_calls (λ k. none) j
same_map j = ground (arith, bytes_eq_iff high j, bytes_eq_iff low j, bytes_eq_iff near j)

root_hash-run_example :
    ((run toy_sha calls (new toy_sha)).root_hash
      ≡ (run toy_sha fewer_calls (new toy_sha)).root_hash)
    × ((run toy_sha calls (new toy_sha)).leaf_count
        ≡ (run toy_sha fewer_calls (new toy_sha)).leaf_count)
root_hash-run_example = root_hash-run toy_sha calls fewer_calls (omega arith) (omega arith) same_map
