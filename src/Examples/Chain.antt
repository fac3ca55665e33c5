-- ===== src/Examples/Chain.antt =====
-- The theorems on the chain state and the fork choice, at concrete inputs.
use exfer.Common.{
  ℕ, ◌≡◌, refl, arith, true, false, ◌&&◌, ◌||◌, List, [], ◌∷◌, ◌++◌, Bytes, replicate, ok, err, ltb,
  ◌==◌, Result, inl, inr, Bool-cases, bytes_eq,
}
use exfer.Common.Map.{lookup, insert, remove}
use exfer.Types.Hash.{zero_hash, domain_hash}
use exfer.Types.Transaction.{
  OutPoint, is_coinbase, tx_id, signing_bytes, serialize_header, serialize_body, serialize_all,
  serialize_input, serialize_output, serialize_varbytes, serialize_optional,
  serialize_optional_hash,
}
use exfer.Consensus.Difficulty.{number}
use exfer.Chain.ForkChoice.{cmp_bytes, ChainTip, HasWork, is_better_chain, is_better_chain-number}
use exfer.Chain.State.Defs.{
  UtxoEntry, UtxoMutation, UtxoSet, StateError, new, insert_utxo, remove_utxo, with_entry,
  without_entry, outpoint_eq, outpoint_key, collect_spent_utxos, outpoint_before,
}
use exfer.Chain.State.Apply.{
  id_of, remove_input, remove_inputs, insert_outputs, apply_transaction, undo_transaction,
  undo_partial_transaction,
}
use exfer.Chain.State.Lookup.{AllSerialize}
use exfer.Chain.State.Outputs.{SameEntries}
use exfer.Chain.State.Undo.{undo_transaction-apply_transaction}
use exfer.Chain.Index.{index, unindex, put_back, indexed}
use exfer.Chain.State.Apply.{created_outpoint}
use exfer.Common.{length}
use exfer.Chain.State.Query.{utxos_for_script, rows_from, is_mature}
use exfer.Chain.State.Sync.{
  pays_to, IsInSync, IsInSync-new, IsInSync-apply_transaction, IsInSync-undo_transaction,
  IsInSync-undo_partial_transaction,
}
use exfer.Examples.Toy.{toy_sha, toy_smt, coinbase, spending, pay}

abbrev tip : ℕ → ℕ → ChainTip
tip height work = record {
  block_id = zero_hash;
  height = height;
  cumulative_work = replicate 31 0 ++ (work ∷ []);
}

tip-HasWork : (height : ℕ) → HasWork (tip height 9)
tip-HasWork height = record { size = refl; digits = omega arith }

is_better_chain-number_example : is_better_chain (tip 5 9) (tip 4 9) ≡ (
    ltb (number (tip 4 9).cumulative_work) (number (tip 5 9).cumulative_work)
    || (number (tip 5 9).cumulative_work == number (tip 4 9).cumulative_work && ltb 4 5))
is_better_chain-number_example =
    is_better_chain-number (tip 5 9) (tip 4 9) (tip-HasWork 5) (tip-HasWork 4)

six_five : is_better_chain (tip 6 9) (tip 5 9) ≡ true
unfolding is_better_chain cmp_bytes
six_five = refl

five_four : is_better_chain (tip 5 9) (tip 4 9) ≡ true
unfolding is_better_chain cmp_bytes
five_four = refl

abbrev pub old_outpoint : OutPoint
old_outpoint = record { tx_id = replicate 32 3; output_index = 1 }

abbrev pub old_entry : UtxoEntry
old_entry = record { output = pay 400; height = 2; is_coinbase = false }

-- A set with the one entry that `spending` spends.
abbrev pub funded : UtxoSet toy_smt
funded = (insert_utxo toy_sha toy_smt old_outpoint old_entry (new toy_smt)).1

abbrev spent_once : UtxoSet toy_smt
spent_once = (apply_transaction toy_sha toy_smt spending 6 funded).1

abbrev pub log_of : Result (List UtxoMutation) StateError → List UtxoMutation
log_of (ok ms) = ms
log_of (err e) = []

abbrev spending_log : List UtxoMutation
spending_log = log_of (apply_transaction toy_sha toy_smt spending 6 funded).0

spending_applied :
    apply_transaction toy_sha toy_smt spending 6 funded ≡ (ok spending_log, spent_once)
unfolding apply_transaction remove_input remove_inputs insert_outputs id_of tx_id signing_bytes
    serialize_header serialize_body serialize_all serialize_input serialize_output
    serialize_varbytes serialize_optional serialize_optional_hash is_coinbase domain_hash
    insert_utxo remove_utxo with_entry without_entry index unindex put_back lookup insert remove new
    outpoint_eq outpoint_before bytes_eq
spending_applied = refl

abbrev fits : Bytes
fits = elim (serialize_output (pay 400)) [ ok bytes ↦ bytes | err e ↦ [] ]

pub funded-AllSerialize : AllSerialize toy_sha toy_smt funded
unfolding insert_utxo with_entry new lookup insert serialize_output serialize_varbytes
    serialize_optional serialize_optional_hash
funded-AllSerialize op e there = elim (Bool-cases (outpoint_eq old_outpoint op)) [
  | inl same ↦ let e_old : old_entry ≡ e = cc (rw same at there) in rw (← e_old) (fits, refl)
  | inr other ↦ cc (rw other at there)
]

undo_transaction-apply_transaction_example :
    (t : UtxoSet toy_smt) × (undo_transaction toy_sha toy_smt spending
        (collect_spent_utxos spending_log)
        spent_once
      ≡ (ok tt, t))
    × SameEntries toy_sha toy_smt funded t
undo_transaction-apply_transaction_example =
    undo_transaction-apply_transaction toy_sha toy_smt spending 6 funded spent_once spending_log
      funded-AllSerialize spending_applied

-- The outpoint that `coinbase` creates.
abbrev coinbase_outpoint : OutPoint
coinbase_outpoint =
    created_outpoint (elim (tx_id toy_sha coinbase) [ ok id ↦ id | err e ↦ zero_hash ]) 0

-- The set in which `op` is indexed under the script of the coinbase output exactly if it pays to it.
abbrev InSyncAt : OutPoint → UtxoSet toy_smt → Type 0
InSyncAt op s =
    indexed (replicate 32 7) op s.by_script ≡ pays_to (replicate 32 7) (lookup op s.utxos)

abbrev minted : UtxoSet toy_smt
minted = (apply_transaction toy_sha toy_smt coinbase 3 (new toy_smt)).1

minted-IsInSync : IsInSync toy_sha toy_smt minted
minted-IsInSync script op =
    IsInSync-apply_transaction toy_sha toy_smt coinbase 3 (new toy_smt)
      (IsInSync-new toy_sha toy_smt) script op

IsInSync-apply_transaction_example : InSyncAt coinbase_outpoint minted
IsInSync-apply_transaction_example =
    IsInSync-apply_transaction toy_sha toy_smt coinbase 3 (new toy_smt)
      (IsInSync-new toy_sha toy_smt) (replicate 32 7) coinbase_outpoint

IsInSync-undo_transaction_example :
    InSyncAt coinbase_outpoint (undo_transaction toy_sha toy_smt coinbase [] minted).1
IsInSync-undo_transaction_example =
    IsInSync-undo_transaction toy_sha toy_smt coinbase [] minted minted-IsInSync (replicate 32 7)
      coinbase_outpoint

IsInSync-undo_partial_transaction_example :
    InSyncAt old_outpoint
      (undo_partial_transaction toy_sha toy_smt spending ((old_outpoint, old_entry) ∷ []) minted).1
IsInSync-undo_partial_transaction_example =
    IsInSync-undo_partial_transaction toy_sha toy_smt spending ((old_outpoint, old_entry) ∷ [])
      minted minted-IsInSync (replicate 32 7) old_outpoint

-- With the limit 0 a listing returns one row.
limit_zero : length (utxos_for_script toy_smt 360 (replicate 32 7) 9 0 funded) ≡ 1
unfolding utxos_for_script rows_from is_mature insert_utxo with_entry index new lookup insert
    serialize_output serialize_varbytes serialize_optional serialize_optional_hash outpoint_eq
    outpoint_before bytes_eq
limit_zero = refl
