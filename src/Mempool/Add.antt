-- ===== src/Mempool/Add.antt =====
-- mempool/mempool.rs: `add`, which has its own copy of the checks and the writes of `add_validated`.
use exfer.Common.{
  ℕ, zero, suc, ◌+◌, ◌/◌, Bool, ◌||◌, none, some, List, [], ◌∷◌, length, ltb, leb, if◌then◌else◌,
  Result, ok, err, saturating_mul_u64,
}
use exfer.Common.Map.{Map, Set, insert, contains, bytes_key}
use exfer.Common.Exec.{Exec, ◌>>=◌, ◌>>◌, pure}
use exfer.Types.Hash.{Hash256, Sha}
use exfer.Types.Transaction.{TxInput, OutPoint, Transaction, is_coinbase, tx_id}
use exfer.Consensus.Cost.{tx_cost_with_script_cost}
use exfer.Consensus.Validation.Defs.{ValidationError, tx_too_large}
use exfer.Consensus.Validation.Witness.{Setting}
use exfer.Consensus.Validation.Transaction.{validate_transaction}
use exfer.Chain.Smt.{Smt}
use exfer.Chain.State.Defs.{UtxoSet, outpoint_key}
use exfer.Chain.State.Apply.{spent_outpoint}
use exfer.Mempool.Defs.{
  mempool_capacity, max_mempool_bytes, Mempool, MempoolEntry, MempoolError, Density, density_key,
  already_in_mempool, coinbase_not_allowed, double_spend, validation_failed, fee_too_low,
  cost_overflow, size_or, resolve_inputs, index_entry, evict_lowest,
}

-- `for input in &tx.inputs`: the first conflict with the pool.
unfoldable pub refuse_spent : List TxInput → Set OutPoint → Result (Unit {0}) MempoolError
refuse_spent [] spent = ok tt
refuse_spent (i ∷ is) spent =
    let rest = refuse_spent is spent in
    let outpoint = spent_outpoint i in
    if contains outpoint spent then err (double_spend outpoint) else rest

-- `.map_err(MempoolError::ValidationFailed)`
abbrev pub validated : {A : Type 0} → Result A ValidationError → Result A MempoolError
validated (ok a) = ok a
validated (err e) = err (validation_failed e)

-- `if tx_cost > 0 { fee.saturating_mul(1_000_000) / tx_cost } else { 0 }`
unfoldable pub density_for : ℕ → ℕ → ℕ
density_for fee tx_cost = if ltb 0 tx_cost then saturating_mul_u64 fee 1_000_000 / tx_cost else 0

abbrev pub no_room : ℕ → Mempool → Bool
no_room tx_bytes p =
    leb mempool_capacity (length p.entries) || ltb max_mempool_bytes (p.total_bytes + tx_bytes)

-- The `while` loop, on as many rounds as there are entries.
unfoldable pub evict_to_fit : ℕ → ℕ → Mempool → Mempool
evict_to_fit zero tx_bytes p = p
evict_to_fit (suc rounds) tx_bytes p =
    let next = evict_to_fit rounds tx_bytes (evict_lowest p) in
    if no_room tx_bytes p then elim p.entries [ [] ↦ p | _ ∷ _ ↦ next ] else p

-- `if let Some((&(worst_density, _), _)) = self.by_fee_density.first_key_value()`
unfoldable pub displace : ℕ → ℕ → Map Density Hash256 → Exec Mempool (Unit {0}) MempoolError
displace density tx_bytes [] p = (ok tt, p)
displace density tx_bytes ((key, id) ∷ rest) p =
    if leb density key.0
    then (err fee_too_low, p)
    else (ok tt, evict_to_fit (length p.entries) tx_bytes p)

unfoldable pub fit : ℕ → ℕ → Exec Mempool (Unit {0}) MempoolError
fit density tx_bytes p =
    if no_room tx_bytes p then displace density tx_bytes p.by_fee_density p else (ok tt, p)

unfoldable pub track : List TxInput → Set OutPoint → Set OutPoint
track [] spent = spent
track (i ∷ is) spent = track is (insert (spent_outpoint i) tt spent)

-- The writes at the end, in the order of the source.
unfoldable pub write : MempoolEntry → ℕ → Mempool → Mempool
write e tx_bytes p0 =
    let p1 : Mempool = record p0 { spent_outpoints = track e.tx.inputs p0.spent_outpoints } in
    let p2 : Mempool = record p1 {
      by_fee_density = insert (e.fee_density, e.tx_id) e.tx_id p1.by_fee_density;
    } in
    let p3 : Mempool = record p2 { total_bytes = p2.total_bytes + tx_bytes } in
    let p4 : Mempool = record p3 { by_script = index_entry e p3.by_script } in
    record p4 { entries = insert e.tx_id e p4.entries }

module _ (smt : Smt) where
  abbrev pub entry_of : Transaction → Hash256 → ℕ → ℕ → UtxoSet smt → MempoolEntry
  entry_of tx id fee cost utxo_set = record {
    tx = tx;
    tx_id = id;
    fee = fee;
    tx_cost = cost;
    fee_density = density_for fee cost;
    spent_inputs = resolve_inputs smt tx.inputs utxo_set;
  }

module _ (sha : Sha) where
  -- What is checked before the transaction is validated.
  unfoldable pub check_new : Transaction → Mempool → Result Hash256 MempoolError
  check_new tx p = elim (tx_id sha tx) [
    | err e ↦ err (validation_failed (tx_too_large 0))
    | ok id ↦
        if contains id p.entries
        then err already_in_mempool
        else if is_coinbase tx
        then err coinbase_not_allowed
        else elim (refuse_spent tx.inputs p.spent_outpoints) [ ok done ↦ ok id | err e ↦ err e ]
  ]

  module _ (smt : Smt) (setting : Setting) where
    unfoldable pub add : Transaction → UtxoSet smt → ℕ → Exec Mempool Hash256 MempoolError
    add tx utxo_set current_height = do
      id ← (λ p. (check_new tx p, p))
      paid ← (λ p. (validated (validate_transaction sha smt setting tx utxo_set current_height), p))
      cost ← (λ p. (
        elim (tx_cost_with_script_cost tx paid.1.0 paid.1.1) [
          | some c ↦ ok c
          | none ↦ err cost_overflow
        ],
        p,
      ))
      fit (density_for paid.0 cost) (size_or 0 tx)
      (λ p. (ok tt, write (entry_of smt tx id paid.0 cost utxo_set) (size_or 0 tx) p))
      pure id
