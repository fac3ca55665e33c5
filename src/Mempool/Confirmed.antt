-- ===== src/Mempool/Confirmed.antt =====
-- mempool/mempool.rs: what a new block takes out of the pool.
use exfer.Common.{
  ◌≡◌, ◌≢◌, sym, All, refl, arith, Bool, true, false, ◌||◌, none, some, List, [], ◌∷◌,
  if◌then◌else◌, Bool-cases, Result-cases, Option-cases, inl, inr, bytes_eq, bytes_eq_iff, ◌&&◌,
  not, ◌↔◌, ok, err,
}
use exfer.Common.Map.{Map, Set, lookup, remove, beq_ne, contains, bytes_key}
use exfer.Types.Hash.{zero_hash, Hash256, Sha}
use exfer.Types.Transaction.{TxInput, OutPoint, Transaction, is_coinbase, tx_id}
use exfer.Chain.State.Defs.{outpoint_eq_refl, outpoint_key}
use exfer.Chain.State.Apply.{spent_outpoint}
use exfer.Mempool.Defs.{Mempool, MempoolEntry, density_key, remove_tx, forget, spend_all}
use exfer.Mempool.Admit.{
  remove_ids, remove_confirmed, conflicting, confirmed_outpoints, spends_any, ids_of,
}
use exfer.Mempool.Spending.{spends, contains_same, contains-spend_all}
use exfer.Consensus.Validation.Distinct.{IsDistinct}
use exfer.Mempool.Refresh.{lookup-remove_tx, lookup-remove_all, listed}

listed-conflicting :
    (confirmed : Set OutPoint) (m : Map Hash256 MempoolEntry) (id : Hash256) (e : MempoolEntry)
    → lookup id m ≡ some e
    → spends_any e.tx.inputs confirmed ≡ true
    → listed id (conflicting confirmed m) ≡ true
unfolding conflicting listed lookup
listed-conflicting confirmed [] id e at s = cc
listed-conflicting confirmed ((j, f) ∷ m) id e at s = elim (Bool-cases (bytes_eq j id)) [
  | inl same ↦ let e_f : f ≡ e = cc (rw same at at) in rw (rw (← e_f) at s, same)
  | inr other ↦ ground (arith, other, listed-conflicting confirmed m id e (rw other at at) s)
]

-- A transaction of the block, not a coinbase, spends `op`.
unfoldable pub block_spends : OutPoint → List Transaction → Bool
block_spends op [] = false
block_spends op (tx ∷ txs) = not (is_coinbase tx) && spends op tx.inputs || block_spends op txs

contains-confirmed_outpoints :
    (op : OutPoint) (txs : List Transaction) (m : Set OutPoint)
    → contains op (confirmed_outpoints txs m) ≡ (block_spends op txs || contains op m)
unfolding confirmed_outpoints block_spends
contains-confirmed_outpoints op [] m = refl
contains-confirmed_outpoints op (tx ∷ txs) m = ground (
  arith,
  contains-confirmed_outpoints op txs m,
  contains-confirmed_outpoints op txs (spend_all tx.inputs m),
  contains-spend_all op tx.inputs m,
)

-- The inputs spend no outpoint of a set that they do not meet.
spends_any-spends :
    (op : OutPoint) (is : List TxInput) (m : Set OutPoint)
    → spends_any is m ≡ false
    → (contains op m && spends op is) ≡ false
unfolding spends_any spends
spends_any-spends op [] m h = ground arith
spends_any-spends op (i ∷ is) m h =
    ground (arith, h, spends_any-spends op is m, contains_same (spent_outpoint i) op m)

-- The other way round: a set that meets no input.
spends-spends_any :
    (is : List TxInput) (m : Set OutPoint)
    → ((op : OutPoint) → (contains op m && spends op is) ≡ false)
    → spends_any is m ≡ false
unfolding spends_any spends
spends-spends_any [] m h = refl
spends-spends_any (i ∷ is) m h =
    let op = spent_outpoint i in
    ground
      (arith, rw (outpoint_eq_refl op) at (h op), spends-spends_any is m (λ o. ground (arith, h o)))

-- An identifier that the map does not have is not listed among its conflicts.
not_conflicting :
    (confirmed : Set OutPoint) (m : Map Hash256 MempoolEntry) (id : Hash256)
    → All (λ k. id ≢ k) (ids_of m)
    → listed id (conflicting confirmed m) ≡ false
unfolding conflicting listed ids_of
not_conflicting confirmed [] id h = refl
not_conflicting confirmed ((j, f) ∷ m) id (other, more) =
    let rest = not_conflicting confirmed m id more in
    let differ : bytes_eq j id ≡ false = beq_ne j id (λ e. other (sym e)) in
    elim (Bool-cases (spends_any f.tx.inputs confirmed)) [
      | inl clash ↦ rw clash (ground (arith, differ, rest))
      | inr free ↦ rw free rest
    ]

conflicting-listed :
    (confirmed : Set OutPoint) (m : Map Hash256 MempoolEntry) (id : Hash256) (e : MempoolEntry)
    → IsDistinct (ids_of m)
    → lookup id m ≡ some e
    → spends_any e.tx.inputs confirmed ≡ false
    → listed id (conflicting confirmed m) ≡ false
unfolding conflicting listed ids_of lookup
conflicting-listed confirmed [] id e d at free = refl
conflicting-listed confirmed ((j, f) ∷ m) id e (apart, d) at free =
    elim (Bool-cases (bytes_eq j id)) [
      | inl same ↦
          let j_id = (bytes_eq_iff j id).0 same in
          let f_e : f ≡ e = cc (rw same at at) in
          rw (f_e, free) (not_conflicting confirmed m id (rw j_id at apart))
      | inr other ↦
          let rest = conflicting-listed confirmed m id e d (rw other at at) free in
          elim (Bool-cases (spends_any f.tx.inputs confirmed)) [
            | inl clash ↦ rw clash (ground (arith, other, rest))
            | inr none_there ↦ rw none_there rest
          ]
    ]

All-remove :
    (P : Hash256 → Type 0) (k : Hash256) (m : Map Hash256 MempoolEntry)
    → All P (ids_of m)
    → All P (ids_of (remove k m))
unfolding remove ids_of
All-remove P k [] h = tt
All-remove P k ((j, f) ∷ m) h = elim (Bool-cases (bytes_eq j k)) [
  | inl same ↦ rw same (All-remove P k m h.1)
  | inr other ↦ rw other (h.0, All-remove P k m h.1)
]

IsDistinct-remove :
    (k : Hash256) (m : Map Hash256 MempoolEntry)
    → IsDistinct (ids_of m)
    → IsDistinct (ids_of (remove k m))
unfolding remove ids_of
IsDistinct-remove k [] h = tt
IsDistinct-remove k ((j, f) ∷ m) h = elim (Bool-cases (bytes_eq j k)) [
  | inl same ↦ rw same (IsDistinct-remove k m h.1)
  | inr other ↦ rw other (All-remove (λ i. j ≢ i) k m h.0, IsDistinct-remove k m h.1)
]

IsDistinct-remove_tx :
    (k : Hash256) (p : Mempool)
    → IsDistinct (ids_of p.entries)
    → IsDistinct (ids_of (remove_tx k p).1.entries)
unfolding remove_tx forget
IsDistinct-remove_tx k p h = elim (Option-cases (lookup k p.entries)) [
  | inl absent ↦ rw (remove_tx, absent) h
  | inr (e, at) ↦ rw (remove_tx, at) (IsDistinct-remove k p.entries h)
]

contains_none : (op : OutPoint) (m : Set OutPoint) → m ≡ [] → contains op m ≡ false
unfolding contains lookup
contains_none op m e = rw e refl

abbrev zero_outpoint : OutPoint
zero_outpoint = record { tx_id = zero_hash; output_index = 0 }

module _ (sha : Sha) where
  -- A transaction of the block has the identifier.
  unfoldable pub block_names : Hash256 → List Transaction → Bool
  block_names id [] = false
  block_names id (tx ∷ txs) =
      elim (tx_id sha tx) [ ok k ↦ bytes_eq k id | err e ↦ false ] || block_names id txs

  lookup-remove_ids :
      (txs : List Transaction) (p : Mempool) (id : Hash256)
      → lookup id (remove_ids sha txs p).entries
        ≡ (if block_names id txs then none else lookup id p.entries)
  unfolding remove_ids block_names
  lookup-remove_ids [] p id = refl
  lookup-remove_ids (tx ∷ txs) p id = elim (Result-cases (tx_id sha tx)) [
    | inr (x, e) ↦ rw (remove_ids, block_names, e) (lookup-remove_ids txs p id)
    | inl (k, e) ↦
        rw (remove_ids, block_names, e)
          (ground (arith, lookup-remove_ids txs (remove_tx k p).1 id, lookup-remove_tx k id p))
  ]

  remove_confirmed-kept :
      (txs : List Transaction) (p : Mempool) (id : Hash256) (e : MempoolEntry) (op : OutPoint)
      → lookup id (remove_confirmed sha txs p).entries ≡ some e
      → (lookup id p.entries ≡ some e)
        × (block_names id txs ≡ false)
        × ((block_spends op txs && spends op e.tx.inputs) ≡ false)
  unfolding remove_confirmed
  remove_confirmed-kept txs p id e op at =
      let q = remove_ids sha txs p in
      let confirmed = confirmed_outpoints txs [] in
      let gone = conflicting confirmed q.entries in
      let at' = rw (lookup-remove_all gone id q) at at in
      let there : lookup id q.entries ≡ some e = ground (arith, at') in
      let before = rw (lookup-remove_ids txs p id) at there in
      let free : spends_any e.tx.inputs confirmed ≡ false =
        ground (arith, at', listed-conflicting confirmed q.entries id e there) in
      (
        ground (arith, before),
        ground (arith, before),
        ground (
          arith,
          spends_any-spends op e.tx.inputs confirmed,
          free,
          contains-confirmed_outpoints op txs [],
        ),
      )

  IsDistinct-remove_ids :
      (txs : List Transaction) (p : Mempool)
      → IsDistinct (ids_of p.entries)
      → IsDistinct (ids_of (remove_ids sha txs p).entries)
  unfolding remove_ids
  IsDistinct-remove_ids [] p h = h
  IsDistinct-remove_ids (tx ∷ txs) p h = elim (Result-cases (tx_id sha tx)) [
    | inr (x, e) ↦ rw (remove_ids, e) (IsDistinct-remove_ids txs p h)
    | inl (k, e) ↦ rw (remove_ids, e) (IsDistinct-remove_ids txs _ (IsDistinct-remove_tx k p h))
  ]

  -- On a pool with at most one entry to an identifier, `remove_confirmed` leaves exactly the entries
  -- whose identifier no transaction of the block has and which spend no outpoint that a transaction of
  -- the block other than a coinbase spends, unchanged: an entry stands under an identifier afterwards
  -- if and only if it stood there before and is one of these.
  pub remove_confirmed_lem :
      (txs : List Transaction) (p : Mempool) (id : Hash256) (e : MempoolEntry)
      → IsDistinct (ids_of p.entries)
      → (lookup id (remove_confirmed sha txs p).entries ≡ some e) ↔ (
          (lookup id p.entries ≡ some e)
          × (block_names id txs ≡ false)
          × ((op : OutPoint) → (block_spends op txs && spends op e.tx.inputs) ≡ false))
  unfolding remove_confirmed
  remove_confirmed_lem txs p id e d =
      let q = remove_ids sha txs p in
      let confirmed = confirmed_outpoints txs [] in
      (
        λ at. (
          (remove_confirmed-kept txs p id e zero_outpoint at).0,
          (remove_confirmed-kept txs p id e zero_outpoint at).1,
          λ op. (remove_confirmed-kept txs p id e op at).2,
        ),
        λ (before, unnamed, free).
            let there : lookup id q.entries ≡ some e =
              rw (lookup-remove_ids txs p id) (ground (arith, before, unnamed)) in
            let apart : spends_any e.tx.inputs confirmed ≡ false =
              spends-spends_any e.tx.inputs confirmed (λ op. ground (
                arith,
                free op,
                contains-confirmed_outpoints op txs [],
                contains_none op [] refl,
              )) in
            rw (lookup-remove_all (conflicting confirmed q.entries) id q) (
              ground (
                arith,
                there,
                conflicting-listed confirmed q.entries id e (IsDistinct-remove_ids txs p d) there
                    apart,
              )),
      )
