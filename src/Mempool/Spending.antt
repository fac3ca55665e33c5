-- ===== src/Mempool/Spending.antt =====
-- mempool/mempool.rs: no outpoint is spent twice, and `spent_outpoints` has the outpoints that the
-- entries spend, no more and no fewer.
use exfer.Common.{
  ℕ, zero, suc, ◌≡◌, refl, ap, ◌≢◌, arith, Bool, true, false, not, ◌&&◌, ◌||◌, none, some, List, [],
  ◌∷◌, Option-cases, Bool-cases, inl, inr, bytes_eq, bytes_eq_iff,
}
use exfer.Common.Map.{
  Map, Set, lookup, insert, remove, contains, lookup-insert, lookup-remove, bytes_key,
}
use exfer.Types.Hash.{Hash256}
use exfer.Types.Transaction.{TxInput, OutPoint}
use exfer.Chain.State.Defs.{outpoint_key, outpoint_eq, outpoint_eq_iff}
use exfer.Chain.State.Apply.{spent_outpoint}
use exfer.Mempool.Defs.{
  Mempool, MempoolEntry, Density, density_key, new, forget, remove_tx, evict_first, evict_lowest,
  spend_all, release_all,
}
use exfer.Mempool.Admit.{find_conflict, is_full, evict_while_full}

-- The inputs spend `op`.
unfoldable pub spends : OutPoint → List TxInput → Bool
spends op [] = false
spends op (i ∷ is) = outpoint_eq (spent_outpoint i) op || spends op is

pub contains-spend_all :
    (op : OutPoint) (is : List TxInput) (m : Set OutPoint)
    → contains op (spend_all is m) ≡ (spends op is || contains op m)
unfolding spend_all spends
contains-spend_all op [] m = refl
contains-spend_all op (i ∷ is) m = ground (
  arith,
  contains-spend_all op is (insert (spent_outpoint i) tt m),
  lookup-insert (spent_outpoint i) op tt m,
)

contains-release_all :
    (op : OutPoint) (is : List TxInput) (m : Set OutPoint)
    → contains op (release_all is m) ≡ (not (spends op is) && contains op m)
unfolding release_all spends
contains-release_all op [] m = refl
contains-release_all op (i ∷ is) m = ground (
  arith,
  contains-release_all op is (remove (spent_outpoint i) m),
  lookup-remove (spent_outpoint i) op m,
)

pub contains_same :
    (a b : OutPoint) (m : Set OutPoint) → outpoint_eq a b ≡ true → contains a m ≡ contains b m
contains_same a b m h = ap (λ x. contains x m) ((outpoint_eq_iff a b).0 h)

pub find_conflict-none :
    (op : OutPoint) (is : List TxInput) (m : Set OutPoint)
    → find_conflict is m ≡ none
    → spends op is ≡ true
    → contains op m ≡ false
unfolding find_conflict spends
find_conflict-none op [] m h k = cc
find_conflict-none op (i ∷ is) m h k =
    ground (arith, find_conflict-none op is m, contains_same (spent_outpoint i) op m)

-- The pool's bookkeeping of outpoints.
pub record IsTracked (p : Mempool) : Type 0 where
  pub named : (id : Hash256) (e : MempoolEntry) → lookup id p.entries ≡ some e → e.tx_id ≡ id
  pub tracked :
      (id : Hash256) (e : MempoolEntry) (op : OutPoint)
      → lookup id p.entries ≡ some e
      → spends op e.tx.inputs ≡ true
      → contains op p.spent_outpoints ≡ true
  pub exclusive :
      (id other : Hash256) (e f : MempoolEntry) (op : OutPoint)
      → lookup id p.entries ≡ some e
      → lookup other p.entries ≡ some f
      → spends op e.tx.inputs ≡ true
      → spends op f.tx.inputs ≡ true
      → id ≡ other
  pub owned :
      (op : OutPoint)
      → contains op p.spent_outpoints ≡ true
      → (id : Hash256) × (e : MempoolEntry) × (lookup id p.entries ≡ some e)
        × (spends op e.tx.inputs ≡ true)

pub IsTracked-new : IsTracked new
unfolding new lookup
IsTracked-new = record {
  named = λ id e at. cc;
  tracked = λ id e op at s. cc;
  exclusive = λ id other e f op at at' s s'. cc;
  owned = λ op there. cc;
}

-- An entry that is left after a removal was there before, under another identifier.
still_there :
    (id j : Hash256) (f : MempoolEntry) (m : Map Hash256 MempoolEntry)
    → lookup j (remove id m) ≡ some f
    → (bytes_eq id j ≡ false) × (lookup j m ≡ some f)
still_there id j f m h = elim (Bool-cases (bytes_eq id j)) [
  | inl same ↦ cc (rw (lookup-remove id j m, same) at h)
  | inr other ↦ (other, rw (lookup-remove id j m, other) at h)
]

pub not_same : (id j : Hash256) → bytes_eq id j ≡ false → id ≢ j
not_same id j h e = cc ((bytes_eq_iff id j).1 e)

-- A pool from which one entry and its outpoints are gone.
IsTracked-without :
    (p q : Mempool) (id : Hash256) (e : MempoolEntry)
    → IsTracked p
    → lookup id p.entries ≡ some e
    → q.entries ≡ remove id p.entries
    → q.spent_outpoints ≡ release_all e.tx.inputs p.spent_outpoints
    → IsTracked q
IsTracked-without p q id e t at same_entries same_spent = record {
  named = λ j f h. t.named j f (still_there id j f p.entries (rw same_entries at h)).1;
  tracked = λ j f op h s.
      let (other, before) = still_there id j f p.entries (rw same_entries at h) in
      elim (Bool-cases (spends op e.tx.inputs)) [
        | inl both ↦ absurd (not_same id j other (t.exclusive id j e f op at before both s))
        | inr free ↦
            rw (same_spent, contains-release_all op e.tx.inputs p.spent_outpoints, free)
              (t.tracked j f op before s)
      ];
  exclusive = λ j k f g op h h' s s'.
      t.exclusive j k f g op (still_there id j f p.entries (rw same_entries at h)).1
        (still_there id k g p.entries (rw same_entries at h')).1 s s';
  owned = λ op there.
      let was = rw (same_spent, contains-release_all op e.tx.inputs p.spent_outpoints) at there in
      let (k, f, before, s) = t.owned op (ground arith) in
      elim (Bool-cases (bytes_eq id k)) [
        | inl same ↦
            let here = rw ((bytes_eq_iff id k).0 same) at at in
            let e_f : e ≡ f = cc in ground (arith, was, rw (← e_f) at s)
        | inr other ↦ (k, f, rw (same_entries, lookup-remove id k p.entries, other) before, s)
      ];
}

-- Removing a transaction leaves a pool tracked that was tracked.
pub IsTracked-remove_tx : (id : Hash256) (p : Mempool) → IsTracked p → IsTracked (remove_tx id p).1
unfolding remove_tx forget
IsTracked-remove_tx id p t = elim (Option-cases (lookup id p.entries)) [
  | inl absent ↦ rw (remove_tx, absent) t
  | inr (e, at) ↦ rw (remove_tx, at) (IsTracked-without p _ id e t at refl refl)
]

-- The order of eviction does not matter to the outpoints.
IsTracked-reranked :
    (p : Mempool) (ranks : Map Density Hash256)
    → IsTracked p
    → IsTracked (record p { by_fee_density = ranks })
IsTracked-reranked p ranks t = record {
  named = t.named;
  tracked = t.tracked;
  exclusive = t.exclusive;
  owned = t.owned;
}

-- What an eviction takes away: a part of the entries and of the spent outpoints.
pub record Shrinks (p q : Mempool) : Type 0 where
  pub entries : (id : Hash256) → lookup id p.entries ≡ none → lookup id q.entries ≡ none
  pub spent :
      (op : OutPoint)
      → contains op p.spent_outpoints ≡ false
      → contains op q.spent_outpoints ≡ false

pub Shrinks-refl : (p : Mempool) → Shrinks p p
Shrinks-refl p = record { entries = λ id h. h; spent = λ op h. h }

Shrinks-trans : (p q r : Mempool) → Shrinks p q → Shrinks q r → Shrinks p r
Shrinks-trans p q r a b = record {
  entries = λ id h. b.entries id (a.entries id h);
  spent = λ op h. b.spent op (a.spent op h);
}

Shrinks-without :
    (p q : Mempool) (id : Hash256) (e : MempoolEntry)
    → q.entries ≡ remove id p.entries
    → q.spent_outpoints ≡ release_all e.tx.inputs p.spent_outpoints
    → Shrinks p q
Shrinks-without p q id e same_entries same_spent = record {
  entries = λ j h. rw (same_entries, lookup-remove id j p.entries) (ground (arith, h));
  spent = λ op h.
      rw (same_spent, contains-release_all op e.tx.inputs p.spent_outpoints) (ground (arith, h));
}

evict_step :
    (ranks : Map Density Hash256) (p : Mempool)
    → IsTracked p
    → IsTracked (evict_first ranks p) × Shrinks p (evict_first ranks p)
unfolding evict_first forget
evict_step [] p t = (t, Shrinks-refl p)
evict_step ((key, id) ∷ rest) p t = elim (Option-cases (lookup id p.entries)) [
  | inl absent ↦
      rw (evict_first, absent)
        (IsTracked-reranked p _ t, record { entries = λ j h. h; spent = λ op h. h })
  | inr (f, at) ↦
      rw (evict_first, at)
        (IsTracked-without p _ id f t at refl refl, Shrinks-without p _ id f refl refl)
]

-- The break of the loop at an empty pool.
pub either_way :
    (m : Map Hash256 MempoolEntry) (p q : Mempool) (P : Mempool → Type 0)
    → P p
    → P q
    → P (elim m [ [] ↦ p | _ ∷ _ ↦ q ])
either_way [] p q P a b = a
either_way (x ∷ m) p q P a b = b

pub evict_while_full_lem :
    (rounds tx_bytes : ℕ) (p : Mempool)
    → IsTracked p
    → IsTracked (evict_while_full rounds tx_bytes p)
      × Shrinks p (evict_while_full rounds tx_bytes p)
unfolding evict_while_full evict_lowest
evict_while_full_lem zero tx_bytes p t = (t, Shrinks-refl p)
evict_while_full_lem (suc rounds) tx_bytes p t =
    let (t1, s1) = evict_step p.by_fee_density p t in
    let (t2, s2) = evict_while_full_lem rounds tx_bytes (evict_lowest p) t1 in
    elim (Bool-cases (is_full tx_bytes p)) [
      | inr roomy ↦ rw (evict_while_full, roomy) (t, Shrinks-refl p)
      | inl full ↦
          rw (evict_while_full, full)
            (either_way p.entries p _ (λ q. IsTracked q × Shrinks p q) (t, Shrinks-refl p)
              (t2, Shrinks-trans p (evict_lowest p) _ s1 s2))
    ]
