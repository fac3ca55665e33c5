-- ===== src/Mempool/Defs.antt =====
-- mempool/mempool.rs: the pool, and how an entry leaves it.
use exfer.Common.{
  ℕ, ◌-◌, ◌*◌, ◌≡◌, arith, Bool, true, ◌&&◌, ◌↔◌, Option, none, some, List, [], ◌∷◌, Bytes, ◌++◌,
  ltb, ◌==◌, bytes_eq, bytes_eq_iff, bytes_eq_refl, if◌then◌else◌, ok, err,
}
use exfer.Common.Map.{Map, Set, Key, lookup, insert, remove, bytes_before, bytes_key}
use exfer.Types.Hash.{Hash256}
use exfer.Types.Transaction.{TxInput, TxOutput, OutPoint, Transaction, serialized_size}
use exfer.Chain.Index.{index, unindex}
use exfer.Chain.Smt.{Smt}
use exfer.Consensus.Validation.Defs.{ValidationError}
use exfer.Chain.State.Defs.{UtxoSet, get, outpoint_key}
use exfer.Chain.State.Apply.{spent_outpoint}

-- types/mod.rs
abbrev pub mempool_capacity : ℕ
mempool_capacity = 8192

abbrev pub max_mempool_bytes : ℕ
max_mempool_bytes = 256 * 1024 * 1024

pub record SpentInput : Type 0 where
  pub outpoint : OutPoint
  pub script : Bytes
  pub value : ℕ

pub record MempoolEntry : Type 0 where
  pub tx : Transaction
  pub tx_id : Hash256
  pub fee : ℕ
  pub tx_cost : ℕ
  pub fee_density : ℕ
  pub spent_inputs : List SpentInput

-- The keys `(fee_density, tx_id)`: lowest density first.
abbrev pub Density : Type 0
Density = ℕ × Hash256

unfoldable pub density_eq : Density → Density → Bool
density_eq a b = a.0 == b.0 && bytes_eq a.1 b.1

density_eq_refl : (a : Density) → density_eq a a ≡ true
unfolding density_eq
density_eq_refl a = ground (arith, bytes_eq_refl a.1)

pub density_eq_iff : (a b : Density) → (density_eq a b ≡ true) ↔ (a ≡ b)
unfolding density_eq
density_eq_iff a b = (λ h. ground (arith, bytes_eq_iff a.1 b.1), λ e. rw (← e) (density_eq_refl a))

unfoldable pub density_before : Density → Density → Bool
density_before a b = if a.0 == b.0 then bytes_before a.1 b.1 else ltb a.0 b.0

instance abbrev pub density_key : Key Density
density_key = record { beq = density_eq; beq_iff = density_eq_iff; before = density_before }

pub record Mempool : Type 0 where
  pub entries : Map Hash256 MempoolEntry
  pub by_fee_density : Map Density Hash256
  pub spent_outpoints : Set OutPoint
  pub by_script : Map Bytes (Set Hash256)
  pub total_bytes : ℕ

unfoldable pub new : Mempool
new = record {
  entries = [];
  by_fee_density = [];
  spent_outpoints = [];
  by_script = [];
  total_bytes = 0;
}

pub data MempoolError : Type 0 where
  already_in_mempool coinbase_not_allowed fee_too_low cost_overflow : MempoolError
  validation_failed : ValidationError → MempoolError
  double_spend : OutPoint → MempoolError

-- `tx.serialized_size().unwrap_or(default)`
unfoldable pub size_or : ℕ → Transaction → ℕ
size_or d tx = elim (serialized_size tx) [ ok n ↦ n | err e ↦ d ]

-- `resolve_spent_inputs`: an input that the snapshot lacks is skipped.
unfoldable pub resolve_inputs : (smt : Smt) → List TxInput → UtxoSet smt → List SpentInput
resolve_inputs smt [] utxos = []
resolve_inputs smt (i ∷ is) utxos =
    let op = spent_outpoint i in
    let rest = resolve_inputs smt is utxos in
    elim (get smt op utxos) [
      | none ↦ rest
      | some utxo ↦
          record { outpoint = op; script = utxo.output.script; value = utxo.output.value } ∷ rest
    ]

-- The scripts that an entry touches, in the order of the loops of `index_entry`.
unfoldable pub output_scripts : List TxOutput → List Bytes
output_scripts [] = []
output_scripts (o ∷ os) = o.script ∷ output_scripts os

unfoldable pub spent_scripts : List SpentInput → List Bytes
spent_scripts [] = []
spent_scripts (s ∷ ss) = s.script ∷ spent_scripts ss

unfoldable pub scripts_of : MempoolEntry → List Bytes
scripts_of e = output_scripts e.tx.outputs ++ spent_scripts e.spent_inputs

unfoldable pub index_all : Hash256 → List Bytes → Map Bytes (Set Hash256) → Map Bytes (Set Hash256)
index_all id [] m = m
index_all id (script ∷ scripts) m = index_all id scripts (index script id m)

unfoldable pub unindex_all :
    Hash256 → List Bytes → Map Bytes (Set Hash256) → Map Bytes (Set Hash256)
unindex_all id [] m = m
unindex_all id (script ∷ scripts) m = unindex_all id scripts (unindex script id m)

-- `index_entry` and `deindex_entry`, without the events that they emit.
unfoldable pub index_entry : MempoolEntry → Map Bytes (Set Hash256) → Map Bytes (Set Hash256)
index_entry e m = index_all e.tx_id (scripts_of e) m

unfoldable pub deindex_entry : MempoolEntry → Map Bytes (Set Hash256) → Map Bytes (Set Hash256)
deindex_entry e m = unindex_all e.tx_id (scripts_of e) m

unfoldable pub spend_all : List TxInput → Set OutPoint → Set OutPoint
spend_all [] spent = spent
spend_all (i ∷ is) spent = spend_all is (insert (spent_outpoint i) tt spent)

unfoldable pub release_all : List TxInput → Set OutPoint → Set OutPoint
release_all [] spent = spent
release_all (i ∷ is) spent = release_all is (remove (spent_outpoint i) spent)

-- What `remove` and `evict_lowest` do with an entry that has left `entries` and `by_fee_density`.
unfoldable pub forget : MempoolEntry → Mempool → Mempool
forget e p = record p {
  by_script = deindex_entry e p.by_script;
  spent_outpoints = release_all e.tx.inputs p.spent_outpoints;
  total_bytes = p.total_bytes - size_or 0 e.tx;
}

unfoldable pub remove_tx : Hash256 → Mempool → Option Transaction × Mempool
remove_tx id p = elim (lookup id p.entries) [
  | none ↦ (none, p)
  | some e ↦ (
    some e.tx,
    forget e (record p {
      entries = remove id p.entries;
      by_fee_density = remove (e.fee_density, e.tx_id) p.by_fee_density;
    }),
  )
]

-- `evict_lowest`: the first key of `by_fee_density`, and the entry that it names.
unfoldable pub evict_first : Map Density Hash256 → Mempool → Mempool
evict_first [] p = p
evict_first ((key, id) ∷ rest) p =
    let q : Mempool = record p { by_fee_density = remove key p.by_fee_density } in
    elim (lookup id p.entries) [
      | none ↦ q
      | some e ↦ forget e (record q { entries = remove id p.entries })
    ]

unfoldable pub evict_lowest : Mempool → Mempool
unfolding evict_first
evict_lowest p = evict_first p.by_fee_density p
