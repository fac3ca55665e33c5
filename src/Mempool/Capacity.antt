-- ===== src/Mempool/Capacity.antt =====
-- mempool/mempool.rs: an admission keeps the ranks and the capacity of the pool.
use exfer.Common.{ℕ, ◌≤◌, ◌<◌, arith, Result-cases, inl, inr, length}
use exfer.Common.Map.{bytes_key, length-insert}
use exfer.Types.Hash.{Sha}
use exfer.Types.Transaction.{Transaction}
use exfer.Chain.Smt.{Smt}
use exfer.Chain.State.Defs.{UtxoSet}
use exfer.Mempool.Defs.{Mempool, MempoolEntry, size_or, mempool_capacity}
use exfer.Mempool.Admit.{admit, new_entry, density_of, add_validated}
use exfer.Mempool.Spending.{IsTracked}
use exfer.Mempool.Admission.{screen-ok, add_validated_parts, add_validated-err, make_room_lem}
use exfer.Mempool.Ranking.{IsRanked, IsRanked-admit, make_room_capacity}

length-admit :
    (e : MempoolEntry) (tx_bytes : ℕ) (p : Mempool)
    → length p.entries < mempool_capacity
    → length (admit e tx_bytes p).entries ≤ mempool_capacity
unfolding admit
length-admit e tx_bytes p h = omega (arith, length-insert e.tx_id e p.entries)

-- `add_validated` leaves a tracked pool ranked that was ranked, and with at most 8192 entries if it
-- had at most 8192, on every branch.
pub IsRanked-add_validated :
    (sha : Sha) (smt : Smt) (tx : Transaction) (fee script_cost validation_cost : ℕ)
    (resolved : UtxoSet smt) (p : Mempool)
    → IsTracked p
    → IsRanked p
    → length p.entries ≤ mempool_capacity
    → IsRanked (add_validated sha smt tx fee script_cost validation_cost resolved p).1
      × (length (add_validated sha smt tx fee script_cost validation_cost resolved p).1.entries
          ≤ mempool_capacity)
IsRanked-add_validated sha smt tx fee script_cost validation_cost resolved p t r few =
    let run = add_validated sha smt tx fee script_cost validation_cost resolved p in
    elim (Result-cases run.0) [
      | inr (x, failed) ↦
          rw
            (add_validated-err sha smt tx fee script_cost validation_cost resolved p run.1 x
              (λ i. (failed i, run.1)))
            (r, few)
      | inl (id, done) ↦
          let (cost, passed, priced, roomy, end) =
            add_validated_parts sha smt tx fee script_cost validation_cost resolved p run.1 id
              (λ i. (done i, run.1)) in
          let (named, absent, free, minted) = screen-ok sha tx p id passed in
          let (r1, room) = make_room_capacity (density_of fee cost) (size_or 0 tx) p r roomy in
          let e = new_entry smt tx id fee cost resolved in
          rw (← end) (
            IsRanked-admit e (size_or 0 tx) _ r1
                ((make_room_lem (density_of fee cost) (size_or 0 tx) p t).1.entries id absent),
            length-admit e (size_or 0 tx) _ room,
          )
    ]
