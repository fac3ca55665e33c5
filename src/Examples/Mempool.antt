-- ===== src/Examples/Mempool.antt =====
-- The theorems on the pool, at concrete inputs.
use exfer.Common.{
  length, ◌≤◌, ◌≡◌, ◌↔◌, refl, arith, true, false, none, some, List, [], ◌∷◌, replicate, ok, err,
  Result, Bytes, ◌&&◌, ◌||◌, bytes_eq,
}
use exfer.Common.Map.{lookup, insert, contains, bytes_key}
use exfer.Types.Hash.{Hash256, zero_hash, domain_hash}
use exfer.Types.Transaction.{
  OutPoint, Transaction, is_coinbase, tx_id, signing_bytes, serialize, serialize_header,
  serialize_body, serialize_all, serialize_input, serialize_output, serialize_witness,
  serialize_varbytes, serialize_optional, serialize_optional_hash, serialized_size,
}
use exfer.Consensus.Cost.{
  tx_cost_with_script_cost, ceil_div_u128, witness_deser_cost, charge_bytes, charge_optional,
  datum_deser_cost, typecheck_cost, is_phase1_script,
}
use exfer.Chain.State.Defs.{UtxoSet, new, insert_utxo, outpoint_eq, outpoint_key}
use exfer.Mempool.Defs.{mempool_capacity}
use exfer.Mempool.Defs.{
  Mempool, MempoolEntry, MempoolError, already_in_mempool, density_key, density_eq, size_or,
  resolve_inputs, index_entry, index_all, scripts_of, output_scripts, spent_scripts, spend_all,
  remove_tx,
}
use exfer.Mempool.Admit.{
  evict_while_full, admit, new_entry, add_validated, screen, find_conflict, make_room, is_full,
  remove_confirmed,
}
use exfer.Mempool.Spending.{IsTracked, IsTracked-new, spends}
use exfer.Mempool.Admission.{add_validated-err, add_validated-spends, IsTracked-add_validated}
use exfer.Mempool.Confirmed.{block_names, block_spends, remove_confirmed_lem}
use exfer.Mempool.Admit.{ids_of}
use exfer.Consensus.Validation.Distinct.{IsDistinct}
use exfer.Mempool.Scripts.{pays, funds, IsListed, IsListed-new}
use exfer.Mempool.Admitted.{add_validated-ok}
use exfer.Chain.Index.{indexed}
use exfer.Examples.Undo.{passing_on}
use exfer.Mempool.Ranking.{IsRanked, IsRanked-new, HasRoom, HasRoom-evict_while_full}
use exfer.Mempool.Capacity.{IsRanked-add_validated}
use exfer.Examples.Toy.{toy_sha, toy_smt, spending, coinbase, pay}

abbrev empty_pool : Mempool
empty_pool = exfer.Mempool.Defs.new

abbrev spent_op : OutPoint
spent_op = record { tx_id = replicate 32 3; output_index = 1 }

-- A state that has the outpoint which `spending` spends.
abbrev funded : UtxoSet toy_smt
funded =
    (insert_utxo toy_sha toy_smt spent_op
      (record { output = pay 400; height = 2; is_coinbase = false }) (new toy_smt)).1

abbrev run : Mempool → Result Hash256 MempoolError × Mempool
run p = add_validated toy_sha toy_smt spending 5000 100 0 funded p

abbrev pool : Mempool
pool = (run empty_pool).1

abbrev spending_id : Hash256
spending_id = elim (tx_id toy_sha spending) [ ok id ↦ id | err e ↦ zero_hash ]

admitted : run empty_pool ≡ (ok spending_id, pool)
unfolding add_validated screen tx_id signing_bytes serialize_header serialize_body serialize_all
    serialize_input serialize_output serialize_witness serialize_varbytes serialize_optional
    serialize_optional_hash is_coinbase find_conflict make_room is_full exfer.Mempool.Defs.new
    lookup tx_cost_with_script_cost ceil_div_u128 witness_deser_cost charge_bytes charge_optional
    datum_deser_cost typecheck_cost is_phase1_script serialize bytes_eq domain_hash size_or
    serialized_size
admitted = refl

add_validated-ok_example :
    (tx_id toy_sha spending ≡ ok spending_id)
    × (is_coinbase spending ≡ false)
    × (lookup spending_id empty_pool.entries ≡ none)
    × ((e : MempoolEntry) × (lookup spending_id pool.entries ≡ some e)
        × (e.tx ≡ spending)
        × (e.fee ≡ 5000))
    × ((script : Bytes)
        → indexed script spending_id pool.by_script
          ≡ (pays script spending.outputs || funds toy_smt script funded spending.inputs))
    × IsListed pool
add_validated-ok_example =
    add_validated-ok toy_sha toy_smt spending 5000 100 0 funded empty_pool pool spending_id admitted
      IsTracked-new IsListed-new

add_validated-spends_example :
    (contains spent_op empty_pool.spent_outpoints ≡ false)
    × (contains spent_op pool.spent_outpoints ≡ true)
unfolding spends outpoint_eq bytes_eq
add_validated-spends_example =
    add_validated-spends toy_sha toy_smt spending 5000 100 0 funded empty_pool pool spending_id
      spent_op admitted refl

IsTracked-add_validated_example : IsTracked pool
IsTracked-add_validated_example =
    IsTracked-add_validated toy_sha toy_smt spending 5000 100 0 funded empty_pool IsTracked-new

pool-IsTracked : IsTracked pool
pool-IsTracked =
    IsTracked-add_validated toy_sha toy_smt spending 5000 100 0 funded empty_pool IsTracked-new

-- The same transaction a second time.
refused : run pool ≡ (err already_in_mempool, (run pool).1)
unfolding add_validated screen tx_id signing_bytes serialize_header serialize_body serialize_all
    serialize_input serialize_output serialize_witness serialize_varbytes serialize_optional
    serialize_optional_hash is_coinbase find_conflict make_room is_full exfer.Mempool.Defs.new
    lookup tx_cost_with_script_cost ceil_div_u128 witness_deser_cost charge_bytes charge_optional
    datum_deser_cost typecheck_cost is_phase1_script serialize bytes_eq domain_hash admit insert
    size_or serialized_size
refused = refl

add_validated-err_example : (run pool).1 ≡ pool
add_validated-err_example =
    add_validated-err toy_sha toy_smt spending 5000 100 0 funded pool (run pool).1
      already_in_mempool refused

abbrev pooled : MempoolEntry
pooled =
    new_entry toy_smt spending spending_id 5000
      (elim (tx_cost_with_script_cost spending 100 0) [ some c ↦ c | none ↦ 0 ]) funded

pool-IsDistinct : IsDistinct (ids_of pool.entries)
unfolding add_validated screen tx_id signing_bytes serialize_header serialize_body serialize_all
    serialize_input serialize_output serialize_witness serialize_varbytes serialize_optional
    serialize_optional_hash is_coinbase find_conflict make_room is_full exfer.Mempool.Defs.new
    lookup tx_cost_with_script_cost ceil_div_u128 witness_deser_cost charge_bytes charge_optional
    datum_deser_cost typecheck_cost is_phase1_script serialize bytes_eq domain_hash admit insert
    size_or serialized_size ids_of
pool-IsDistinct = (tt, tt)

-- A block that neither holds nor conflicts with the transaction of the pool.
abbrev block : List Transaction
block = coinbase ∷ passing_on ∷ []

remove_confirmed_lem_example :
    (lookup spending_id (remove_confirmed toy_sha block pool).entries ≡ some pooled) ↔ (
      (lookup spending_id pool.entries ≡ some pooled)
      × (block_names toy_sha spending_id block ≡ false)
      × ((op : OutPoint) → (block_spends op block && spends op pooled.tx.inputs) ≡ false))
remove_confirmed_lem_example =
    remove_confirmed_lem toy_sha block pool spending_id pooled pool-IsDistinct

-- A pool of one entry, written out.
abbrev one_entry : Mempool
one_entry = record {
  entries = (spending_id, pooled) ∷ [];
  by_fee_density = ((7, spending_id), spending_id) ∷ [];
  spent_outpoints = (spent_op, tt) ∷ [];
  by_script = [];
  total_bytes = 200;
}

IsRanked-add_validated_example : IsRanked pool × (length pool.entries ≤ mempool_capacity)
unfolding exfer.Mempool.Defs.new
IsRanked-add_validated_example =
    IsRanked-add_validated toy_sha toy_smt spending 5000 100 0 funded empty_pool IsTracked-new
      IsRanked-new (omega arith)

pool-IsRanked : IsRanked pool
unfolding exfer.Mempool.Defs.new
pool-IsRanked =
    (IsRanked-add_validated toy_sha toy_smt spending 5000 100 0 funded empty_pool IsTracked-new
      IsRanked-new (omega arith)).0

HasRoom-evict_while_full_example :
    IsRanked (evict_while_full (length pool.entries) 300_000_000 pool)
    × HasRoom 300_000_000 (evict_while_full (length pool.entries) 300_000_000 pool)
HasRoom-evict_while_full_example = HasRoom-evict_while_full 300_000_000 pool pool-IsRanked
