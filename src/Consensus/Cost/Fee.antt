-- ===== src/Consensus/Cost/Fee.antt =====
-- consensus/cost.rs: when a cost exists, and what a fee must be.
use exfer.Common.{
  ℕ, ◌+◌, ◌*◌, ◌≤◌, ◌<◌, ◌≡◌, arith, some, Bytes, length, and_then-eq-some, div_ceil, ok,
}
use exfer.Types.Hash.{Hash256}
use exfer.Types.Transaction.{Transaction, sig_message}
use exfer.Consensus.Cost.{
  ceil_div_u128, tx_cost, tx_cost_with_script_cost, min_fee, phase1_script_eval_cost,
}

-- The rounded-up quotient: the smallest number whose hundredfold is at least `a`.
ceil_div_hundred :
    (a : ℕ) {q : ℕ} → ceil_div_u128 a 100 ≡ some q → (a ≤ 100 * q) × (100 * q < a + 100)
unfolding ceil_div_u128
ceil_div_hundred a h = ground arith

-- The smallest fee is the cost over 100, rounded up: a hundred times the fee covers the cost, and
-- a hundred times one unit less does not.
pub min_fee-tx_cost :
    (genesis_id : Hash256) (tx : Transaction) (fee : ℕ)
    → min_fee genesis_id tx ≡ some fee
    → (cost : ℕ) × (tx_cost genesis_id tx ≡ some cost)
      × (cost ≤ 100 * fee)
      × (100 * fee < cost + 100)
unfolding min_fee
min_fee-tx_cost genesis_id tx fee h =
    let (cost, e, rounded) = and_then-eq-some (tx_cost genesis_id tx) _ h in
    (cost, e, (ceil_div_hundred cost rounded).0, (ceil_div_hundred cost rounded).1)

-- For a message that can be built, the copy for pubkey-hash inputs is the general cost with the
-- pubkey-hash evaluation cost of every input and no script validation cost.
pub tx_cost-tx_cost_with_script_cost :
    (genesis_id : Hash256) (tx : Transaction) (message : Bytes)
    → sig_message genesis_id tx ≡ ok message
    → tx_cost genesis_id tx
      ≡ tx_cost_with_script_cost tx
          (length tx.inputs * (phase1_script_eval_cost + div_ceil (length message) 64 * 8))
          0
unfolding tx_cost tx_cost_with_script_cost
tx_cost-tx_cost_with_script_cost genesis_id tx message h = rw h
