-- ===== src/Examples/Undo.antt =====
-- A block whose last transaction spends an output that the block creates, applied and undone.
use exfer.Common.{◌≡◌, refl, ap, arith, [], ◌∷◌, List, Result, ok, err, replicate, bytes_eq}
use exfer.Common.Map.{bytes_before, lookup, insert, remove}
use exfer.Types.Hash.{Hash256, zero_hash, domain_hash}
use exfer.Types.Transaction.{
  Transaction, tx_id, signing_bytes, serialize_header, serialize_body, serialize_all,
  serialize_input, serialize_output, serialize_varbytes, serialize_optional,
  serialize_optional_hash, is_coinbase,
}
use exfer.Types.Block.{Block}
use exfer.Chain.Index.{index, unindex, put_back}
use exfer.Chain.State.Defs.{
  UtxoMutation, UtxoSet, new, insert_utxo, remove_utxo, with_entry, without_entry, outpoint_eq,
  outpoint_before, collect_spent_utxos,
}
use exfer.Chain.State.Apply.{apply_transaction, id_of, remove_input, remove_inputs, insert_outputs}
use exfer.Chain.State.Outputs.{SameEntries}
use exfer.Consensus.Validation.Header.{spent_by}
use exfer.Consensus.Validation.Distinct.{IsDistinct}
use exfer.Consensus.Validation.Undo.{apply_all, undo_block_transactions}
use exfer.Consensus.Validation.Restored.{undo_block_transactions-apply_all}
use exfer.Examples.Toy.{toy_sha, toy_smt, pay, no_witness, coinbase, spending}
use exfer.Examples.Chain.{funded, funded-AllSerialize, log_of}

abbrev id_or_zero : {E : Type 0} → Result Hash256 E → Hash256
id_or_zero (ok id) = id
id_or_zero (err e) = zero_hash

-- Spends the first output of `spending`.
abbrev pub passing_on : Transaction
passing_on = record {
  inputs = record { prev_tx_id = id_or_zero (tx_id toy_sha spending); output_index = 0 } ∷ [];
  outputs = pay 30 ∷ [];
  witnesses = no_witness ∷ [];
}

abbrev chained : Block
chained = record {
  header = record {
    version = 1;
    height = 6;
    prev_block_id = replicate 32 2;
    timestamp = 130;
    difficulty_target = 1 ∷ replicate 31 0;
    nonce = 4;
    tx_root = replicate 32 8;
    state_root = replicate 32 9;
  };
  transactions = coinbase ∷ spending ∷ passing_on ∷ [];
}

abbrev chained_set : UtxoSet toy_smt
chained_set = (apply_all toy_sha toy_smt chained.transactions 6 funded).1

abbrev chained_log : List UtxoMutation
chained_log = log_of (apply_all toy_sha toy_smt chained.transactions 6 funded).0

chained_applied :
    apply_all toy_sha toy_smt chained.transactions 6 funded ≡ (ok chained_log, chained_set)
unfolding apply_all apply_transaction remove_input remove_inputs insert_outputs id_of tx_id
    signing_bytes serialize_header serialize_body serialize_all serialize_input serialize_output
    serialize_varbytes serialize_optional serialize_optional_hash is_coinbase domain_hash
    insert_utxo remove_utxo with_entry without_entry index unindex put_back lookup insert remove new
    outpoint_eq outpoint_before bytes_eq bytes_before
chained_applied = refl

chained-IsDistinct : IsDistinct (spent_by chained.transactions)
unfolding spent_by
chained-IsDistinct = (
  (
    λ e. absurd (omega (arith, ap (λ op. op.output_index) e)),
    (λ e. absurd (omega (arith, ap (λ op. op.output_index) e)), tt),
  ),
  ((λ e. absurd (omega (arith, ap (λ op. op.output_index) e)), tt), (tt, tt)),
)

undo_block_transactions-apply_all_example :
    (t : UtxoSet toy_smt) × (undo_block_transactions toy_sha toy_smt chained
        (collect_spent_utxos chained_log)
        chained_set
      ≡ (ok tt, t))
    × SameEntries toy_sha toy_smt funded t
undo_block_transactions-apply_all_example =
    undo_block_transactions-apply_all toy_sha toy_smt chained 6 funded chained_set chained_log
      funded-AllSerialize chained-IsDistinct chained_applied
