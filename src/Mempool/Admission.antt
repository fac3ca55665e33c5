-- ===== src/Mempool/Admission.antt =====
-- mempool/mempool.rs: what an admission leaves behind, and the bookkeeping of outpoints in every
-- operation on the pool.
use exfer.Common.{
  ℕ, ◌≡◌, refl, sym, ◌∙◌, ap, arith, true, false, ◌⊎◌, none, some, [], ◌∷◌, length, leb, Result, ok,
  err, Option-cases, Bool-cases, Result-cases, inl, inr, bytes_eq, bytes_eq_iff,
}
use exfer.Common.Map.{Map, lookup, insert, contains, lookup-insert, bytes_key}
use exfer.Common.Exec.{run_after, run_after-eq-ok, ok_injective}
use exfer.Types.Hash.{Hash256, Sha}
use exfer.Types.Transaction.{OutPoint, Transaction, tx_id, is_coinbase}
use exfer.Consensus.Cost.{tx_cost_with_script_cost}
use exfer.Chain.Smt.{Smt}
use exfer.Chain.State.Defs.{UtxoSet, outpoint_key}
use exfer.Mempool.Defs.{Mempool, MempoolEntry, MempoolError, Density, density_key, size_or}
use exfer.Mempool.Admit.{
  find_conflict, admit, is_full, evict_for, make_room, screen, density_of, new_entry, add_validated,
}
use exfer.Mempool.Spending.{
  spends, contains-spend_all, find_conflict-none, IsTracked, Shrinks, Shrinks-refl,
  evict_while_full_lem,
}

-- An entry of a map after an insertion is the new one, or was there.
new_or_old :
    (id j : Hash256) (e f : MempoolEntry) (m : Map Hash256 MempoolEntry)
    → lookup j (insert id e m) ≡ some f
    → ((id ≡ j) × (e ≡ f)) ⊎ (lookup j m ≡ some f)
new_or_old id j e f m h = elim (Bool-cases (bytes_eq id j)) [
  | inl same ↦ inl ((bytes_eq_iff id j).0 same, cc (rw (lookup-insert id j e m, same) at h))
  | inr other ↦ inr (rw (lookup-insert id j e m, other) at h)
]

-- An entry that was there is not replaced by an admission under a new identifier.
old_one :
    (id j : Hash256) (e f : MempoolEntry) (m : Map Hash256 MempoolEntry)
    → lookup id m ≡ none
    → lookup j m ≡ some f
    → lookup j (insert id e m) ≡ some f
old_one id j e f m absent h = elim (Bool-cases (bytes_eq id j)) [
  | inl same ↦ cc (rw ((bytes_eq_iff id j).0 same) at absent)
  | inr other ↦ rw (lookup-insert id j e m, other) h
]

IsTracked-admit :
    (e : MempoolEntry) (tx_bytes : ℕ) (p : Mempool)
    → IsTracked p
    → lookup e.tx_id p.entries ≡ none
    → ((op : OutPoint) → spends op e.tx.inputs ≡ true → contains op p.spent_outpoints ≡ false)
    → IsTracked (admit e tx_bytes p)
unfolding admit
IsTracked-admit e tx_bytes p t absent free = record {
  named = λ j f h. elim (new_or_old e.tx_id j e f p.entries h) [
    | inl (same, is_f) ↦ rw (← is_f) same
    | inr before ↦ t.named j f before
  ];
  tracked = λ j f op h s. elim (new_or_old e.tx_id j e f p.entries h) [
    | inl (same, is_f) ↦ rw (contains-spend_all op e.tx.inputs p.spent_outpoints, is_f, s)
    | inr before ↦
        rw (contains-spend_all op e.tx.inputs p.spent_outpoints)
          (ground (arith, t.tracked j f op before s))
  ];
  exclusive = λ j k f g op h h' s s'. elim (new_or_old e.tx_id j e f p.entries h) [
    | inl (same, is_f) ↦ elim (new_or_old e.tx_id k e g p.entries h') [
      | inl (same', is_g) ↦ sym same ∙ same'
      | inr before' ↦ cc (free op (rw is_f s), t.tracked k g op before' s')
    ]
    | inr before ↦ elim (new_or_old e.tx_id k e g p.entries h') [
      | inl (same', is_g) ↦ cc (free op (rw is_g s'), t.tracked j f op before s)
      | inr before' ↦ t.exclusive j k f g op before before' s s'
    ]
  ];
  owned = λ op there. elim (Bool-cases (spends op e.tx.inputs)) [
    | inl mine ↦ (
      e.tx_id,
      e,
      rw (lookup-insert e.tx_id e.tx_id e p.entries) (ground (arith, bytes_eq_iff e.tx_id e.tx_id)),
      mine,
    )
    | inr others ↦
        let (k, f, before, s) =
          t.owned op (rw (contains-spend_all op e.tx.inputs p.spent_outpoints, others) at there) in
        (k, f, old_one e.tx_id k e f p.entries absent before, s)
  ];
}

module _ (sha : Sha) where
  -- The screen lets through a transaction that is new and conflicts with no entry.
  pub screen-ok :
      (tx : Transaction) (p : Mempool) (id : Hash256)
      → screen sha tx p ≡ ok id
      → (tx_id sha tx ≡ ok id)
        × (lookup id p.entries ≡ none)
        × (find_conflict tx.inputs p.spent_outpoints ≡ none)
        × (is_coinbase tx ≡ false)
  unfolding screen
  screen-ok tx p id h = elim (Result-cases (tx_id sha tx)) [
    | inr (x, named) ↦ cc (rw (screen, named) at h)
    | inl (id', named) ↦ elim (Option-cases (find_conflict tx.inputs p.spent_outpoints)) [
      | inr (op, clash) ↦ ground (arith, rw (screen, named, clash) at h)
      | inl free ↦
          let h' = rw (screen, named, free) at h in
          let same : id' ≡ id = ground (arith, h') in
          (rw (← same) named, rw (← same) (ground (arith, h')), free, ground (arith, h'))
    ]
  ]

evict_for_lem :
    (fee_density tx_bytes : ℕ) (ranks : Map Density Hash256) (p : Mempool)
    → IsTracked p
    → IsTracked (evict_for fee_density tx_bytes ranks p).1
      × Shrinks p (evict_for fee_density tx_bytes ranks p).1
unfolding evict_for
evict_for_lem fee_density tx_bytes [] p t = (t, Shrinks-refl p)
evict_for_lem fee_density tx_bytes (((worst, id), id') ∷ rest) p t =
    elim (Bool-cases (leb fee_density worst)) [
      | inl low ↦ rw (evict_for, low) (t, Shrinks-refl p)
      | inr high ↦ rw (evict_for, high) (evict_while_full_lem (length p.entries) tx_bytes p t)
    ]

pub make_room_lem :
    (fee_density tx_bytes : ℕ) (p : Mempool)
    → IsTracked p
    → IsTracked (make_room fee_density tx_bytes p).1
      × Shrinks p (make_room fee_density tx_bytes p).1
unfolding make_room
make_room_lem fee_density tx_bytes p t = elim (Bool-cases (is_full tx_bytes p)) [
  | inl full ↦ rw (make_room, full) (evict_for_lem fee_density tx_bytes p.by_fee_density p t)
  | inr roomy ↦ rw (make_room, roomy) (t, Shrinks-refl p)
]

-- Where room is refused, nothing was evicted.
evict_for-err :
    (fee_density tx_bytes : ℕ) (ranks : Map Density Hash256) (p : Mempool) (x : MempoolError)
    → (evict_for fee_density tx_bytes ranks p).0 ≡ err x
    → (evict_for fee_density tx_bytes ranks p).1 ≡ p
unfolding evict_for
evict_for-err fee_density tx_bytes [] p x h = refl
evict_for-err fee_density tx_bytes (((worst, id), id') ∷ rest) p x h =
    elim (Bool-cases (leb fee_density worst)) [
      | inl low ↦ rw (evict_for, low) refl
      | inr high ↦ cc (rw (evict_for, high) at h)
    ]

make_room-err :
    (fee_density tx_bytes : ℕ) (p : Mempool) (x : MempoolError)
    → (make_room fee_density tx_bytes p).0 ≡ err x
    → (make_room fee_density tx_bytes p).1 ≡ p
unfolding make_room
make_room-err fee_density tx_bytes p x h = elim (Bool-cases (is_full tx_bytes p)) [
  | inl full ↦
      rw (make_room, full)
        (evict_for-err fee_density tx_bytes p.by_fee_density p x (rw (make_room, full) at h))
  | inr roomy ↦ rw (make_room, roomy) refl
]

-- An error ends the run where it arises: what follows does not fail.
refused_room :
    (r : Result (Unit {0}) MempoolError × Mempool) (p q : Mempool) (id : Hash256) (x : MempoolError)
    (f : Mempool → Mempool)
    → ((y : MempoolError) → r.0 ≡ err y → r.1 ≡ p)
    → run_after r (λ u s. (ok id, f s)) ≡ (err x, q)
    → q ≡ p
refused_room (ok u, s) p q id x f same h = cc
refused_room (err y, s) p q id x f same h = sym (ap (λ r. r.1) h) ∙ same y refl

module _ (sha : Sha) (smt : Smt) where
  -- The parts of a successful admission.
  pub add_validated_parts :
      (tx : Transaction) (fee script_cost validation_cost : ℕ) (resolved : UtxoSet smt)
      (p q : Mempool) (id : Hash256)
      → add_validated sha smt tx fee script_cost validation_cost resolved p ≡ (ok id, q)
      → (cost : ℕ) × (screen sha tx p ≡ ok id)
        × (tx_cost_with_script_cost tx script_cost validation_cost ≡ some cost)
        × ((make_room (density_of fee cost) (size_or 0 tx) p).0 ≡ ok tt)
        × (admit
              (new_entry smt tx id fee cost resolved)
              (size_or 0 tx)
              (make_room (density_of fee cost) (size_or 0 tx) p).1
            ≡ q)
  unfolding add_validated
  add_validated_parts tx fee script_cost validation_cost resolved p q id h =
      elim (Result-cases (screen sha tx p)) [
        | inr (x, refused) ↦ cc (rw (add_validated, refused) at h)
        | inl (id', passed) ↦
            elim (Option-cases (tx_cost_with_script_cost tx script_cost validation_cost)) [
              | inl none_there ↦ cc (rw (add_validated, passed, none_there) at h)
              | inr (cost, priced) ↦
                  let (u, p1, room, last) =
                    run_after-eq-ok (make_room (density_of fee cost) (size_or 0 tx) p) _
                      (rw (add_validated, passed, priced) at h) in
                  let (same, end) = ok_injective id' id _ q last in
                  (
                    cost,
                    passed ∙ ap ok same,
                    priced,
                    ap (λ r. r.0) room,
                    rw (← same, ap (λ r. r.1) room) end,
                  )
            ]
      ]

  -- Where `add_validated` returns an error, the pool is as it was.
  pub add_validated-err :
      (tx : Transaction) (fee script_cost validation_cost : ℕ) (resolved : UtxoSet smt)
      (p q : Mempool) (x : MempoolError)
      → add_validated sha smt tx fee script_cost validation_cost resolved p ≡ (err x, q)
      → q ≡ p
  unfolding add_validated
  add_validated-err tx fee script_cost validation_cost resolved p q x h =
      elim (Result-cases (screen sha tx p)) [
        | inr (y, refused) ↦ cc (rw (add_validated, refused) at h)
        | inl (id, passed) ↦
            elim (Option-cases (tx_cost_with_script_cost tx script_cost validation_cost)) [
              | inl none_there ↦ cc (rw (add_validated, passed, none_there) at h)
              | inr (cost, priced) ↦
                  refused_room (make_room (density_of fee cost) (size_or 0 tx) p) p q id x _
                    (λ y e. make_room-err (density_of fee cost) (size_or 0 tx) p y e)
                    (rw (add_validated, passed, priced) at h)
            ]
      ]

  -- No outpoint of an admitted transaction was spent in the pool before, and all are after.
  pub add_validated-spends :
      (tx : Transaction) (fee script_cost validation_cost : ℕ) (resolved : UtxoSet smt)
      (p q : Mempool) (id : Hash256) (op : OutPoint)
      → add_validated sha smt tx fee script_cost validation_cost resolved p ≡ (ok id, q)
      → spends op tx.inputs ≡ true
      → (contains op p.spent_outpoints ≡ false) × (contains op q.spent_outpoints ≡ true)
  unfolding admit
  add_validated-spends tx fee script_cost validation_cost resolved p q id op h s =
      let (cost, passed, priced, roomy, end) =
        add_validated_parts tx fee script_cost validation_cost resolved p q id h in
      let (named, absent, free, minted) = screen-ok sha tx p id passed in
      (
        find_conflict-none op tx.inputs p.spent_outpoints free s,
        rw (← end, contains-spend_all op tx.inputs _, s),
      )

  -- `add_validated` leaves a pool tracked that was tracked, on every branch: no outpoint is spent by
  -- two entries, and the spent outpoints are those of the entries.
  pub IsTracked-add_validated :
      (tx : Transaction) (fee script_cost validation_cost : ℕ) (resolved : UtxoSet smt)
      (p : Mempool)
      → IsTracked p
      → IsTracked (add_validated sha smt tx fee script_cost validation_cost resolved p).1
  IsTracked-add_validated tx fee script_cost validation_cost resolved p t =
      let run = add_validated sha smt tx fee script_cost validation_cost resolved p in
      elim (Result-cases run.0) [
        | inr (x, failed) ↦
            rw
              (add_validated-err tx fee script_cost validation_cost resolved p run.1 x
                (λ i. (failed i, run.1)))
              t
        | inl (id, done) ↦
            let (cost, passed, priced, roomy, end) =
              add_validated_parts tx fee script_cost validation_cost resolved p run.1 id
                (λ i. (done i, run.1)) in
            let (named, absent, free, minted) = screen-ok sha tx p id passed in
            let (t1, less) = make_room_lem (density_of fee cost) (size_or 0 tx) p t in
            rw (← end) (
              IsTracked-admit (new_entry smt tx id fee cost resolved) (size_or 0 tx) _ t1
                (less.entries id absent)
                (λ op s. less.spent op (find_conflict-none op tx.inputs p.spent_outpoints free s)))
      ]
