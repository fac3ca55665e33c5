-- ===== src/Mempool/Admit.antt =====
-- mempool/mempool.rs: admission, removal on a new block, and revalidation.
use exfer.Common.{
  ℕ, zero, suc, ◌+◌, ◌-◌, ◌/◌, Bool, true, false, not, ◌&&◌, ◌||◌, Option, none, some, List, [],
  ◌∷◌, length, ltb, leb, if◌then◌else◌, Result, ok, err, saturating_mul_u64,
}
use exfer.Common.Map.{Map, Set, lookup, insert, contains, bytes_key}
use exfer.Common.Exec.{Exec, ◌>>=◌, ◌>>◌, pure}
use exfer.Types.Hash.{Hash256, Sha}
use exfer.Types.Transaction.{TxInput, OutPoint, Transaction, is_coinbase, tx_id}
use exfer.Consensus.Cost.{tx_cost_with_script_cost}
use exfer.Chain.Smt.{Smt}
use exfer.Chain.State.Defs.{UtxoEntry, UtxoSet, get, outpoint_key}
use exfer.Chain.State.Apply.{spent_outpoint}
use exfer.Consensus.Validation.Defs.{tx_too_large}
use exfer.Consensus.Validation.Witness.{Setting}
use exfer.Consensus.Validation.Transaction.{validate_transaction}
use exfer.Mempool.Defs.{
  mempool_capacity, max_mempool_bytes, MempoolEntry, Mempool, MempoolError, already_in_mempool,
  coinbase_not_allowed, validation_failed, fee_too_low, cost_overflow, double_spend, Density,
  density_key, size_or, resolve_inputs, index_entry, spend_all, remove_tx, evict_lowest,
}

-- The first input that a transaction of the pool spends too.
unfoldable pub find_conflict : List TxInput → Set OutPoint → Option OutPoint
find_conflict [] spent = none
find_conflict (i ∷ is) spent =
    let rest = find_conflict is spent in
    if contains (spent_outpoint i) spent then some (spent_outpoint i) else rest

-- `fee.saturating_mul(1_000_000) / tx_cost`, and 0 at cost 0.
unfoldable pub density_of : ℕ → ℕ → ℕ
density_of fee cost = if ltb 0 cost then saturating_mul_u64 fee 1_000_000 / cost else 0

-- `entries.len() >= MEMPOOL_CAPACITY || total_bytes + tx_bytes > MAX_MEMPOOL_BYTES`
unfoldable pub is_full : ℕ → Mempool → Bool
is_full tx_bytes p =
    leb mempool_capacity (length p.entries) || ltb max_mempool_bytes (p.total_bytes + tx_bytes)

-- The rounds of the eviction loop.
unfoldable pub evict_while_full : ℕ → ℕ → Mempool → Mempool
evict_while_full zero tx_bytes p = p
evict_while_full (suc rounds) tx_bytes p =
    let next = evict_while_full rounds tx_bytes (evict_lowest p) in
    if is_full tx_bytes p then elim p.entries [ [] ↦ p | _ ∷ _ ↦ next ] else p

-- Eviction from a full pool, or the refusal of a density that is not above the lowest.
unfoldable pub evict_for : ℕ → ℕ → Map Density Hash256 → Exec Mempool (Unit {0}) MempoolError
evict_for fee_density tx_bytes [] p = (ok tt, p)
evict_for fee_density tx_bytes (((worst, id), id') ∷ rest) p =
    if leb fee_density worst
    then (err fee_too_low, p)
    else (ok tt, evict_while_full (length p.entries) tx_bytes p)

unfoldable pub make_room : ℕ → ℕ → Exec Mempool (Unit {0}) MempoolError
make_room fee_density tx_bytes p =
    if is_full tx_bytes p then evict_for fee_density tx_bytes p.by_fee_density p else (ok tt, p)

-- The writes of an admission.
unfoldable pub admit : MempoolEntry → ℕ → Mempool → Mempool
admit e tx_bytes p = record p {
  spent_outpoints = spend_all e.tx.inputs p.spent_outpoints;
  by_fee_density = insert (e.fee_density, e.tx_id) e.tx_id p.by_fee_density;
  total_bytes = p.total_bytes + tx_bytes;
  by_script = index_entry e p.by_script;
  entries = insert e.tx_id e p.entries;
}

module _ (smt : Smt) where
  abbrev pub new_entry : Transaction → Hash256 → ℕ → ℕ → UtxoSet smt → MempoolEntry
  new_entry tx id fee cost resolved = record {
    tx = tx;
    tx_id = id;
    fee = fee;
    tx_cost = cost;
    fee_density = density_of fee cost;
    spent_inputs = resolve_inputs smt tx.inputs resolved;
  }

-- The loop of `pre_check`.
unfoldable pub pre_check_inputs : List TxInput → Set OutPoint → Result (Unit {0}) MempoolError
pre_check_inputs [] spent = ok tt
pre_check_inputs (i ∷ is) spent =
    let rest = pre_check_inputs is spent in
    if contains (spent_outpoint i) spent then err (double_spend (spent_outpoint i)) else rest

module _ (sha : Sha) where
  -- The checks that `add_validated` makes first.
  unfoldable pub screen : Transaction → Mempool → Result Hash256 MempoolError
  screen tx p = elim (tx_id sha tx) [
    | err e ↦ err (validation_failed (tx_too_large 0))
    | ok id ↦
        if contains id p.entries
        then err already_in_mempool
        else if is_coinbase tx
        then err coinbase_not_allowed
        else elim (find_conflict tx.inputs p.spent_outpoints) [
          | some op ↦ err (double_spend op)
          | none ↦ ok id
        ]
  ]

  unfoldable pub pre_check : Transaction → Mempool → Result (Unit {0}) MempoolError
  pre_check tx p = elim (tx_id sha tx) [
    | err e ↦ err (validation_failed (tx_too_large 0))
    | ok id ↦
        if contains id p.entries
        then err already_in_mempool
        else if is_coinbase tx
        then err coinbase_not_allowed
        else pre_check_inputs tx.inputs p.spent_outpoints
  ]

  module _ (smt : Smt) where
    unfoldable pub add_validated :
        Transaction → ℕ → ℕ → ℕ → UtxoSet smt → Exec Mempool Hash256 MempoolError
    add_validated tx fee script_cost script_validation_cost resolved = do
      id ← (λ p. (screen tx p, p))
      cost ← (λ p. (
        elim (tx_cost_with_script_cost tx script_cost script_validation_cost) [
          | some c ↦ ok c
          | none ↦ err cost_overflow
        ],
        p,
      ))
      make_room (density_of fee cost) (size_or 0 tx)
      (λ p. (ok tt, admit (new_entry smt tx id fee cost resolved) (size_or 0 tx) p))
      pure id

  -- `remove_confirmed`: by identifier, then by the outpoints that the block spends.
  unfoldable pub remove_ids : List Transaction → Mempool → Mempool
  remove_ids [] p = p
  remove_ids (tx ∷ txs) p =
      remove_ids txs (elim (tx_id sha tx) [ ok id ↦ (remove_tx id p).1 | err e ↦ p ])

-- The outpoints of all inputs of a block but the coinbase's.
unfoldable pub confirmed_outpoints : List Transaction → Set OutPoint → Set OutPoint
confirmed_outpoints [] spent = spent
confirmed_outpoints (tx ∷ txs) spent =
    confirmed_outpoints txs (if is_coinbase tx then spent else spend_all tx.inputs spent)

-- `entries.keys()`
unfoldable pub ids_of : Map Hash256 MempoolEntry → List Hash256
ids_of [] = []
ids_of ((id, e) ∷ m) = id ∷ ids_of m

unfoldable pub spends_any : List TxInput → Set OutPoint → Bool
spends_any [] confirmed = false
spends_any (i ∷ is) confirmed = contains (spent_outpoint i) confirmed || spends_any is confirmed

unfoldable pub conflicting : Set OutPoint → Map Hash256 MempoolEntry → List Hash256
conflicting confirmed [] = []
conflicting confirmed ((id, e) ∷ m) =
    let rest = conflicting confirmed m in
    if spends_any e.tx.inputs confirmed then id ∷ rest else rest

unfoldable pub remove_all : List Hash256 → Mempool → Mempool
remove_all [] p = p
remove_all (id ∷ ids) p = remove_all ids (remove_tx id p).1

unfoldable pub remove_confirmed : Sha → List Transaction → Mempool → Mempool
remove_confirmed sha txs p =
    let q = remove_ids sha txs p in
    remove_all (conflicting (confirmed_outpoints txs []) q.entries) q

-- `revalidate`. The two phases on one entry; `coinbase_maturity()`, which the process sets once, is
-- in the setting of the validation.
unfoldable pub is_immature : ℕ → ℕ → UtxoEntry → Bool
is_immature maturity height e = e.is_coinbase && ltb (height - e.height) maturity

abbrev pub is_ok : {A E : Type 0} → Result A E → Bool
is_ok (ok a) = true
is_ok (err e) = false

module _ (sha : Sha) (smt : Smt) (setting : Setting) where
  unfoldable pub utxo_invalid : List TxInput → UtxoSet smt → ℕ → Bool
  utxo_invalid [] utxos height = false
  utxo_invalid (i ∷ is) utxos height =
      let rest = utxo_invalid is utxos height in
      elim (get smt (spent_outpoint i) utxos) [
        | none ↦ true
        | some e ↦ is_immature setting.coinbase_maturity height e || rest
      ]

  unfoldable pub should_remove : Hash256 → UtxoSet smt → ℕ → Mempool → Bool
  should_remove id utxos height p = elim (lookup id p.entries) [
    | none ↦ false
    | some e ↦
        if utxo_invalid e.tx.inputs utxos height
        then true
        else not (is_ok (validate_transaction sha smt setting e.tx utxos height))
  ]

  unfoldable pub revalidate_ids : List Hash256 → UtxoSet smt → ℕ → Mempool → Mempool
  revalidate_ids [] utxos height p = p
  revalidate_ids (id ∷ ids) utxos height p =
      revalidate_ids ids utxos height
        (if should_remove id utxos height p then (remove_tx id p).1 else p)

  unfoldable pub revalidate : UtxoSet smt → ℕ → Mempool → Mempool
  revalidate utxos height p = revalidate_ids (ids_of p.entries) utxos height p
