-- ===== src/Mempool/Query.antt =====
-- mempool/mempool.rs: the selection for a block template, and the queries.
use exfer.Common.{
  ℕ, zero, suc, ◌+◌, ◌-◌, ◌%◌, ◌^◌, Bool, none, some, List, [], ◌∷◌, ◌++◌, Bytes, leb, bytes_eq,
  if◌then◌else◌, checked_add_u64,
}
use exfer.Common.Map.{Map, Set, lookup, contains, bytes_key}
use exfer.Types.Hash.{Hash256}
use exfer.Types.Transaction.{TxInput, TxOutput, OutPoint, Transaction}
use exfer.Chain.State.Defs.{outpoint_key}
use exfer.Chain.State.Apply.{spent_outpoint}
use exfer.Mempool.Defs.{Mempool, MempoolEntry, SpentInput, Density, density_key, size_or}

-- `usize::MAX`
abbrev pub usize_max : ℕ
usize_max = 2 ^ 64 - 1

-- What `select_transactions` has so far.
pub record Template : Type 0 where
  pub selected : List MempoolEntry
  pub total_fees : ℕ
  pub total_size : ℕ

-- Sums of `usize` wrap in a release build.
unfoldable pub select_one : ℕ → MempoolEntry → Template → Template
select_one max_block_size e t =
    let size = (t.total_size + size_or usize_max e.tx) % 2 ^ 64 in
    if leb size max_block_size
    then elim (checked_add_u64 t.total_fees e.fee) [
      | none ↦ t
      | some new_fees ↦ record {
        selected = t.selected ++ (e ∷ []);
        total_fees = new_fees;
        total_size = size;
      }
    ]
    else t

-- `by_fee_density.iter().rev()`: the end of the list comes first.
unfoldable pub select_from : ℕ → Mempool → Map Density Hash256 → Template
select_from max_block_size p [] = record { selected = []; total_fees = 0; total_size = 0 }
select_from max_block_size p ((key, id) ∷ m) =
    let t = select_from max_block_size p m in
    elim (lookup id p.entries) [ none ↦ t | some e ↦ select_one max_block_size e t ]

unfoldable pub transactions_of : List MempoolEntry → List Transaction
transactions_of [] = []
transactions_of (e ∷ es) = e.tx ∷ transactions_of es

unfoldable pub select_transactions : ℕ → Mempool → List Transaction × ℕ
select_transactions max_block_size p =
    let t = select_from max_block_size p p.by_fee_density in
    (transactions_of t.selected, t.total_fees)

unfoldable pub outpoints_of : List TxInput → List OutPoint
outpoints_of [] = []
outpoints_of (i ∷ is) = spent_outpoint i ∷ outpoints_of is

unfoldable pub referenced_from : Map Hash256 MempoolEntry → List OutPoint
referenced_from [] = []
referenced_from ((id, e) ∷ m) = outpoints_of e.tx.inputs ++ referenced_from m

unfoldable pub referenced_outpoints : Mempool → List OutPoint
referenced_outpoints p = referenced_from p.entries

unfoldable pub is_spent : OutPoint → Mempool → Bool
is_spent op p = contains op p.spent_outpoints

pub record MempoolAddressTx : Type 0 where
  pub tx_id : Hash256
  pub received : List (ℕ × ℕ)
  pub spent : List (OutPoint × ℕ)

unfoldable pub received_from : ℕ → Bytes → List TxOutput → List (ℕ × ℕ)
received_from idx script [] = []
received_from idx script (o ∷ os) =
    let rest = received_from (idx + 1) script os in
    if bytes_eq o.script script then (idx % 2 ^ 32, o.value) ∷ rest else rest

unfoldable pub spent_from : Bytes → List SpentInput → List (OutPoint × ℕ)
spent_from script [] = []
spent_from script (s ∷ ss) =
    let rest = spent_from script ss in
    if bytes_eq s.script script then (s.outpoint, s.value) ∷ rest else rest

-- The loop over the indexed identifiers, with the number of results that may still come.
unfoldable pub address_from : Bytes → ℕ → Set Hash256 → Mempool → List MempoolAddressTx
address_from script zero ids p = []
address_from script (suc limit) [] p = []
address_from script (suc limit) ((id, u) ∷ ids) p =
    let next = address_from script limit ids p in
    let skipped = address_from script (suc limit) ids p in
    elim (lookup id p.entries) [
      | none ↦ skipped
      | some e ↦
          record {
            tx_id = id;
            received = received_from 0 script e.tx.outputs;
            spent = spent_from script e.spent_inputs;
          }
          ∷ next
    ]

unfoldable pub address_mempool_capped : Bytes → ℕ → Mempool → List MempoolAddressTx
address_mempool_capped script limit p = elim (lookup script p.by_script) [
  | none ↦ []
  | some ids ↦ address_from script limit ids p
]

unfoldable pub address_mempool : Bytes → Mempool → List MempoolAddressTx
address_mempool script p = address_mempool_capped script usize_max p
