-- ===== src/Examples/Pool.antt =====
-- A transfer that is admitted to a pool, and a pool that is checked again against a new state.
use exfer.Common.{◌≡◌, ◌↔◌, List, refl, true, false, none, some, [], ◌∷◌, replicate, bytes_eq}
use exfer.Common.Map.{lookup, remove, bytes_key}
use exfer.Types.Hash.{Hash256}
use exfer.Chain.State.Defs.{UtxoSet, UtxoEntry, get, outpoint_eq, outpoint_key}
use exfer.Consensus.Validation.Transaction.{validate_transaction}
use exfer.Consensus.Validation.Accounts.{AreFunded}
use exfer.Mempool.Defs.{new as no_transactions, Mempool, MempoolEntry, remove_tx, forget}
use exfer.Mempool.Admit.{
  is_ok, revalidate, revalidate_ids, ids_of, should_remove, utxo_invalid, is_immature,
}
use exfer.Mempool.Refresh.{revalidate_lem}
use exfer.Mempool.Add.{add}
use exfer.Mempool.Steps.{add_in_steps, add-add_in_steps}
use exfer.Examples.Toy.{toy_sha, toy_smt}
use exfer.Examples.Transfer.{
  toy_setting, wallet, wallet_outpoint, wallet_entry, transfer, transfer_accepted,
}

add-add_in_steps_example :
    add toy_sha toy_smt toy_setting transfer wallet 400 no_transactions
    ≡ add_in_steps toy_sha toy_smt toy_setting transfer wallet 400 no_transactions
add-add_in_steps_example =
    add-add_in_steps toy_sha toy_smt toy_setting transfer wallet 400 no_transactions

-- A pool that holds the transfer.
abbrev transfer_id : Hash256
transfer_id = replicate 32 9

abbrev transfer_entry : MempoolEntry
transfer_entry = record {
  tx = transfer;
  tx_id = transfer_id;
  fee = 1_000;
  tx_cost = 20;
  fee_density = 50_000_000;
  spent_inputs = [];
}

abbrev transfer_pool : Mempool
transfer_pool = record no_transactions { entries = (transfer_id, transfer_entry) ∷ [] }

revalidate_lem_example :
    ((lookup transfer_id (revalidate toy_sha toy_smt toy_setting wallet 400 transfer_pool).entries
        ≡ some transfer_entry)
      ↔ ((lookup transfer_id transfer_pool.entries ≡ some transfer_entry)
          × (is_ok (validate_transaction toy_sha toy_smt toy_setting transfer wallet 400) ≡ true)))
    × ((utxo_invalid toy_sha toy_smt toy_setting transfer.inputs wallet 400 ≡ false) ↔ (
        (es : List UtxoEntry) × AreFunded toy_sha toy_smt toy_setting 400 wallet transfer.inputs
          es))
revalidate_lem_example =
    revalidate_lem toy_sha toy_smt toy_setting wallet 400 transfer_pool transfer_id transfer_entry

-- It stays, since it is accepted.
transfer_stays :
    lookup transfer_id (revalidate toy_sha toy_smt toy_setting wallet 400 transfer_pool).entries
    ≡ some transfer_entry
unfolding lookup bytes_eq
transfer_stays =
    (revalidate_lem toy_sha toy_smt toy_setting wallet 400 transfer_pool transfer_id
        transfer_entry).0.1
      (refl, rw transfer_accepted refl)

-- Against a coinbase that is too young, it goes.
abbrev young : UtxoSet toy_smt
young = record wallet { utxos = (wallet_outpoint, record wallet_entry { height = 100 }) ∷ [] }

transfer_goes :
    lookup transfer_id (revalidate toy_sha toy_smt toy_setting young 400 transfer_pool).entries
    ≡ none
unfolding revalidate revalidate_ids ids_of should_remove utxo_invalid is_immature get lookup
    remove_tx forget remove bytes_eq outpoint_eq
transfer_goes = refl
