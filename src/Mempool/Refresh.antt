-- ===== src/Mempool/Refresh.antt =====
-- mempool/mempool.rs: what revalidation leaves in the pool, and how single removals change it.
use exfer.Common.{
  ℕ, ◌≡◌, refl, arith, Bool, true, false, ◌||◌, none, some, List, [], ◌∷◌, if◌then◌else◌,
  Bool-cases, Result-cases, Option-cases, inl, inr, bytes_eq, bytes_eq_iff, ◌&&◌, not, ◌↔◌,
}
use exfer.Common.Map.{Map, lookup, lookup-remove, bytes_key}
use exfer.Types.Hash.{Hash256, Sha}
use exfer.Types.Transaction.{TxInput, Transaction, tx_id}
use exfer.Chain.Smt.{Smt}
use exfer.Chain.State.Defs.{get, UtxoSet, UtxoEntry, outpoint_key}
use exfer.Chain.State.Apply.{spent_outpoint}
use exfer.Consensus.Validation.Witness.{Setting}
use exfer.Consensus.Validation.Transaction.{validate_transaction}
use exfer.Consensus.Validation.Accounts.{AreFunded, validate_transaction-IsPaid}
use exfer.Mempool.Defs.{Mempool, MempoolEntry, density_key, remove_tx, forget}
use exfer.Mempool.Admit.{
  remove_ids, remove_all, remove_confirmed, ids_of, utxo_invalid, is_immature, is_ok, should_remove,
  revalidate_ids, revalidate,
}
use exfer.Mempool.Spending.{IsTracked, IsTracked-remove_tx}

pub lookup-remove_tx :
    (id j : Hash256) (p : Mempool)
    → lookup j (remove_tx id p).1.entries ≡ (if bytes_eq id j then none else lookup j p.entries)
unfolding remove_tx forget
lookup-remove_tx id j p = ground (arith, lookup-remove id j p.entries, bytes_eq_iff id j)

-- `id` is one of `ids`.
unfoldable pub listed : Hash256 → List Hash256 → Bool
listed id [] = false
listed id (j ∷ ids) = bytes_eq j id || listed id ids

pub lookup-remove_all :
    (ids : List Hash256) (j : Hash256) (p : Mempool)
    → lookup j (remove_all ids p).entries ≡ (if listed j ids then none else lookup j p.entries)
unfolding remove_all listed
lookup-remove_all [] j p = refl
lookup-remove_all (id ∷ ids) j p =
    ground (arith, lookup-remove_all ids j (remove_tx id p).1, lookup-remove_tx id j p)

module _ (sha : Sha) where
  IsTracked-remove_ids :
      (txs : List Transaction) (p : Mempool) → IsTracked p → IsTracked (remove_ids sha txs p)
  unfolding remove_ids
  IsTracked-remove_ids [] p t = t
  IsTracked-remove_ids (tx ∷ txs) p t = elim (Result-cases (tx_id sha tx)) [
    | inr (x, e) ↦ rw (remove_ids, e) (IsTracked-remove_ids txs p t)
    | inl (k, e) ↦ rw (remove_ids, e) (IsTracked-remove_ids txs _ (IsTracked-remove_tx k p t))
  ]

IsTracked-remove_all :
    (ids : List Hash256) (p : Mempool) → IsTracked p → IsTracked (remove_all ids p)
unfolding remove_all
IsTracked-remove_all [] p t = t
IsTracked-remove_all (id ∷ ids) p t = IsTracked-remove_all ids _ (IsTracked-remove_tx id p t)

-- `remove_confirmed` leaves a pool tracked that was tracked.
pub IsTracked-remove_confirmed :
    (sha : Sha) (txs : List Transaction) (p : Mempool)
    → IsTracked p
    → IsTracked (remove_confirmed sha txs p)
unfolding remove_confirmed
IsTracked-remove_confirmed sha txs p t = IsTracked-remove_all _ _ (IsTracked-remove_ids sha txs p t)

module _ (sha : Sha) (smt : Smt) (setting : Setting) where
  -- One round of `revalidate`.
  abbrev after_round : Hash256 → UtxoSet smt → ℕ → Mempool → Mempool
  after_round id utxos height p =
      if should_remove sha smt setting id utxos height p then (remove_tx id p).1 else p

  -- `validate_transaction` accepts the transaction of an entry.
  abbrev pub accepted : MempoolEntry → UtxoSet smt → ℕ → Bool
  accepted e utxos height = is_ok (validate_transaction sha smt setting e.tx utxos height)

  AreFunded-utxo_invalid :
      (is : List TxInput) (es : List UtxoEntry) (utxos : UtxoSet smt) (height : ℕ)
      → AreFunded sha smt setting height utxos is es
      → utxo_invalid sha smt setting is utxos height ≡ false
  unfolding utxo_invalid is_immature
  AreFunded-utxo_invalid [] es utxos height h = refl
  AreFunded-utxo_invalid (i ∷ is) [] utxos height h = absurd h
  AreFunded-utxo_invalid (i ∷ is) (e ∷ es) utxos height (found, mature, more) =
      rw (utxo_invalid, found, mature) (AreFunded-utxo_invalid is es utxos height more)

  utxo_invalid-AreFunded :
      (is : List TxInput) (utxos : UtxoSet smt) (height : ℕ)
      → utxo_invalid sha smt setting is utxos height ≡ false
      → (es : List UtxoEntry) × AreFunded sha smt setting height utxos is es
  unfolding utxo_invalid is_immature
  utxo_invalid-AreFunded [] utxos height h = ([], tt)
  utxo_invalid-AreFunded (i ∷ is) utxos height h =
      elim (Option-cases (get smt (spent_outpoint i) utxos)) [
        | inl absent ↦ cc (rw (utxo_invalid, absent) at h)
        | inr (e, found) ↦
            let h' = rw (utxo_invalid, found) at h in
            let (es, more) = utxo_invalid-AreFunded is utxos height (ground (arith, h')) in
            (e ∷ es, (found, ground (arith, h'), more))
      ]

  -- The cheap phase refuses nothing that the full validation accepts.
  accepted-utxo_invalid :
      (e : MempoolEntry) (utxos : UtxoSet smt) (height : ℕ)
      → accepted e utxos height ≡ true
      → utxo_invalid sha smt setting e.tx.inputs utxos height ≡ false
  accepted-utxo_invalid e utxos height h =
      elim (Result-cases (validate_transaction sha smt setting e.tx utxos height)) [
        | inr (x, refused) ↦ cc (rw refused at h)
        | inl (r, valid) ↦
            let paid =
              validate_transaction-IsPaid sha smt setting e.tx utxos height r.0 r.1.0 r.1.1 valid in
            AreFunded-utxo_invalid e.tx.inputs paid.entries utxos height paid.funded
      ]

  should_remove-accepted :
      (id : Hash256) (utxos : UtxoSet smt) (height : ℕ) (p : Mempool) (e : MempoolEntry)
      → lookup id p.entries ≡ some e
      → should_remove sha smt setting id utxos height p ≡ not (accepted e utxos height)
  unfolding should_remove
  should_remove-accepted id utxos height p e at =
      rw (should_remove, at) (ground (arith, accepted-utxo_invalid e utxos height))

  lookup-after_round :
      (id j : Hash256) (utxos : UtxoSet smt) (height : ℕ) (p : Mempool)
      → lookup j (after_round id utxos height p).entries ≡ (
          if bytes_eq id j && should_remove sha smt setting id utxos height p
          then none
          else lookup j p.entries)
  lookup-after_round id j utxos height p =
      elim (Bool-cases (should_remove sha smt setting id utxos height p)) [
        | inl out ↦ rw out (ground (arith, lookup-remove_tx id j p))
        | inr stays ↦ rw stays (ground arith)
      ]

  should_remove_same :
      (id j : Hash256) (utxos : UtxoSet smt) (height : ℕ) (p : Mempool) (e : MempoolEntry)
      → bytes_eq id j ≡ true
      → lookup j p.entries ≡ some e
      → should_remove sha smt setting id utxos height p ≡ not (accepted e utxos height)
  should_remove_same id j utxos height p e same at =
      rw ((bytes_eq_iff id j).0 same) (should_remove-accepted j utxos height p e at)

  round_kept :
      (id j : Hash256) (utxos : UtxoSet smt) (height : ℕ) (p : Mempool) (e : MempoolEntry)
      → (lookup j (after_round id utxos height p).entries ≡ some e) ↔ (
          (lookup j p.entries ≡ some e)
          × ((bytes_eq id j && not (accepted e utxos height)) ≡ false))
  round_kept id j utxos height p e = (
    λ h.
        let h' = rw (lookup-after_round id j utxos height p) at h in
        let before : lookup j p.entries ≡ some e = ground (arith, h') in
        (before, ground (arith, h', should_remove_same id j utxos height p e, before)),
    λ (before, passes).
        rw (lookup-after_round id j utxos height p)
          (ground (arith, before, passes, should_remove_same id j utxos height p e)),
  )

  revalidate_ids_kept :
      (ids : List Hash256) (utxos : UtxoSet smt) (height : ℕ) (p : Mempool) (id : Hash256)
      (e : MempoolEntry)
      → (lookup id (revalidate_ids sha smt setting ids utxos height p).entries ≡ some e) ↔ (
          (lookup id p.entries ≡ some e)
          × ((listed id ids && not (accepted e utxos height)) ≡ false))
  unfolding revalidate_ids listed
  revalidate_ids_kept [] utxos height p id e = (λ h. (h, ground arith), λ h. h.0)
  revalidate_ids_kept (j ∷ ids) utxos height p id e =
      let p1 = after_round j utxos height p in
      let later = revalidate_ids_kept ids utxos height p1 id e in
      let now = round_kept j id utxos height p e in
      (
        λ h.
            let (at1, passes1) = later.0 h in
            let (at0, passes0) = now.0 at1 in (at0, ground (arith, passes0, passes1)),
        λ (at0, passes). later.1 (now.1 (at0, ground (arith, passes)), ground (arith, passes)),
      )

  listed-ids_of :
      (m : Map Hash256 MempoolEntry) (id : Hash256) (e : MempoolEntry)
      → lookup id m ≡ some e
      → listed id (ids_of m) ≡ true
  unfolding lookup listed ids_of
  listed-ids_of [] id e at = cc
  listed-ids_of ((j, f) ∷ m) id e at = ground (arith, at, listed-ids_of m id e)

  -- `revalidate` leaves exactly the entries of the pool whose transactions `validate_transaction`
  -- accepts against the new set at the new height, unchanged: an entry stands under an identifier
  -- afterwards if and only if it stood there before and is accepted. The cheap test before the full
  -- validation passes an entry if and only if every input has an entry in the new set that is no
  -- coinbase below the maturity; so it refuses nothing that the full validation accepts.
  pub revalidate_lem :
      (utxos : UtxoSet smt) (height : ℕ) (p : Mempool) (id : Hash256) (e : MempoolEntry)
      → ((lookup id (revalidate sha smt setting utxos height p).entries ≡ some e) ↔ (
          (lookup id p.entries ≡ some e)
          × (is_ok (validate_transaction sha smt setting e.tx utxos height) ≡ true)))
        × ((utxo_invalid sha smt setting e.tx.inputs utxos height ≡ false)
            ↔ ((es : List UtxoEntry) × AreFunded sha smt setting height utxos e.tx.inputs es))
  unfolding revalidate
  revalidate_lem utxos height p id e =
      let kept = revalidate_ids_kept (ids_of p.entries) utxos height p id e in
      (
        (
          λ h.
              let (before, passes) = kept.0 h in
              (before, ground (arith, passes, listed-ids_of p.entries id e before)),
          λ (before, valid). kept.1 (before, ground (arith, valid)),
        ),
        (
          utxo_invalid-AreFunded e.tx.inputs utxos height,
          λ (es, funded). AreFunded-utxo_invalid e.tx.inputs es utxos height funded,
        ),
      )

  IsTracked-revalidate_ids :
      (ids : List Hash256) (utxos : UtxoSet smt) (height : ℕ) (p : Mempool)
      → IsTracked p
      → IsTracked (revalidate_ids sha smt setting ids utxos height p)
  unfolding revalidate_ids
  IsTracked-revalidate_ids [] utxos height p t = t
  IsTracked-revalidate_ids (id ∷ ids) utxos height p t =
      IsTracked-revalidate_ids ids utxos height (after_round id utxos height p)
        (elim (Bool-cases (should_remove sha smt setting id utxos height p)) [
          | inl out ↦ rw out (IsTracked-remove_tx id p t)
          | inr stays ↦ rw stays t
        ])

  -- `revalidate` leaves a pool tracked that was tracked.
  pub IsTracked-revalidate :
      (utxos : UtxoSet smt) (height : ℕ) (p : Mempool)
      → IsTracked p
      → IsTracked (revalidate sha smt setting utxos height p)
  unfolding revalidate
  IsTracked-revalidate utxos height p t =
      IsTracked-revalidate_ids (ids_of p.entries) utxos height p t
