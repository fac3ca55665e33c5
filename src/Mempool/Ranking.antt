-- ===== src/Mempool/Ranking.antt =====
-- mempool/mempool.rs: `by_fee_density` ranks the entries, no more and no fewer; so the eviction loop
-- ends with room for one more entry, and the pool keeps its capacity.
use exfer.Common.{
  ℕ, zero, suc, ◌≤◌, ◌<◌, ◌≡◌, refl, sym, ◌∙◌, ap, arith, false, ◌⊎◌, ◌==◌, Option, none, some, [],
  ◌∷◌, length, leb, ltb, ltb→lt, ltb→ge, leb→gt, if◌then◌else◌, ok, Option-cases, Bool-cases, inl,
  inr, bytes_eq_iff,
}
use exfer.Common.Map.{
  Map, lookup, remove, lookup-insert, lookup-remove, length-remove_present, bytes_key,
}
use exfer.Types.Hash.{Hash256}
use exfer.Mempool.Defs.{
  Mempool, MempoolEntry, Density, density_key, density_eq, density_eq_iff, new, forget, remove_tx,
  evict_first, evict_lowest, mempool_capacity,
}
use exfer.Mempool.Admit.{admit, is_full, evict_while_full, evict_for, make_room}

-- What `by_fee_density` has to say of density `d` and `id`, given the entry of `id`.
unfoldable pub rank_of : ℕ → Hash256 → Option MempoolEntry → Option Hash256
rank_of d id none = none
rank_of d id (some e) = if e.fee_density == d then some id else none

pub record IsRanked (p : Mempool) : Type 0 where
  pub named : (id : Hash256) (e : MempoolEntry) → lookup id p.entries ≡ some e → e.tx_id ≡ id
  pub ranks :
      (d : ℕ) (id : Hash256) → lookup (d, id) p.by_fee_density ≡ rank_of d id (lookup id p.entries)

pub IsRanked-new : IsRanked new
unfolding new lookup rank_of
IsRanked-new = record { named = λ id e at. cc; ranks = λ d id. refl }

IsRanked-without :
    (p q : Mempool) (id : Hash256) (e : MempoolEntry)
    → IsRanked p
    → lookup id p.entries ≡ some e
    → q.entries ≡ remove id p.entries
    → q.by_fee_density ≡ remove (e.fee_density, id) p.by_fee_density
    → IsRanked q
unfolding rank_of density_eq
IsRanked-without p q id e r at same_entries same_ranks = record {
  named = λ j f h.
      let h' = rw (same_entries, lookup-remove id j p.entries) at h in
      r.named j f (ground (arith, h'));
  ranks = λ d j.
      rw
        (
          same_entries,
          same_ranks,
          lookup-remove id j p.entries,
          lookup-remove (e.fee_density, id) (d, j) p.by_fee_density,
        )
        (ground (arith, r.ranks d j, at, bytes_eq_iff id j));
}

-- Removing a transaction leaves a pool ranked that was ranked.
pub IsRanked-remove_tx : (id : Hash256) (p : Mempool) → IsRanked p → IsRanked (remove_tx id p).1
unfolding remove_tx forget
IsRanked-remove_tx id p r = elim (Option-cases (lookup id p.entries)) [
  | inl absent ↦ rw (remove_tx, absent) r
  | inr (e, at) ↦
      rw (remove_tx, at)
        (IsRanked-without p _ id e r at refl
          (ap (λ x. remove (e.fee_density, x) p.by_fee_density) (r.named id e at)))
]

pub IsRanked-admit :
    (e : MempoolEntry) (tx_bytes : ℕ) (p : Mempool)
    → IsRanked p
    → lookup e.tx_id p.entries ≡ none
    → IsRanked (admit e tx_bytes p)
unfolding admit rank_of density_eq
IsRanked-admit e tx_bytes p r absent = record {
  named = λ j f h.
      let h' = rw (lookup-insert e.tx_id j e p.entries) at h in
      ground (arith, h', r.named j f, bytes_eq_iff e.tx_id j);
  ranks = λ d j.
      rw
        (
          lookup-insert e.tx_id j e p.entries,
          lookup-insert (e.fee_density, e.tx_id) (d, j) e.tx_id p.by_fee_density,
        )
        (ground (arith, r.ranks d j, absent, bytes_eq_iff e.tx_id j));
}

unranked :
    (m : Map Hash256 MempoolEntry) (ranks : Map Density Hash256)
    → ranks ≡ []
    → ((d : ℕ) (id : Hash256) → lookup (d, id) ranks ≡ rank_of d id (lookup id m))
    → length m ≡ 0
unfolding lookup rank_of
unranked [] ranks e r = refl
unranked ((id, f) ∷ m) ranks e r =
    let h = r f.fee_density id in
    let none_there : lookup (f.fee_density, id) ranks ≡ none = rw e refl in
    ground (arith, h, none_there, bytes_eq_iff id id)

first_rank :
    (d : ℕ) (i id : Hash256) (m : Map Hash256 MempoolEntry)
    → rank_of d i (lookup i m) ≡ some id
    → (i ≡ id) × ((f : MempoolEntry) × (lookup i m ≡ some f) × (f.fee_density ≡ d))
unfolding rank_of
first_rank d i id m h = elim (Option-cases (lookup i m)) [
  | inl absent ↦ cc (rw absent at h)
  | inr (f, at) ↦ let h' = rw at at h in (ground (arith, h'), (f, at, ground (arith, h')))
]

-- A pool without a rank has no entry.
unranked_empty :
    (p : Mempool) → p.by_fee_density ≡ [] → IsRanked p → 0 < length p.entries → length p.entries ≡ 0
unfolding lookup rank_of
unranked_empty p e r some_there = unranked p.entries p.by_fee_density e r.ranks

-- The first rank is that of an entry.
first_ranked :
    (key : Density) (id : Hash256) (rest : Map Density Hash256) (p : Mempool)
    → p.by_fee_density ≡ (key, id) ∷ rest
    → IsRanked p
    → (f : MempoolEntry) × (lookup id p.entries ≡ some f) × (key ≡ (f.fee_density, id))
unfolding lookup rank_of
first_ranked (d, i) id rest p e r =
    let first : lookup (d, i) p.by_fee_density ≡ some id =
      rw (e, lookup, (density_eq_iff (d, i) (d, i)).1 refl) refl in
    let (same, found) = first_rank d i id p.entries (sym (r.ranks d i) ∙ first) in
    let (f, at, dense) = found in (f, rw same at at, λ k. (sym dense k, same k))

-- One eviction from a pool with an entry removes an entry.
evict_first-shorter :
    (ranks : Map Density Hash256) (p : Mempool)
    → p.by_fee_density ≡ ranks
    → IsRanked p
    → 0 < length p.entries
    → IsRanked (evict_first ranks p) × (length (evict_first ranks p).entries < length p.entries)
unfolding evict_first forget
evict_first-shorter [] p e r some_there =
    absurd (omega (arith, unranked_empty p e r some_there, some_there))
evict_first-shorter ((key, id) ∷ rest) p e r some_there =
    let (f, at, same_rank) = first_ranked key id rest p e r in
    rw (evict_first, at)
      (
        IsRanked-without p _ id f r at refl (ap (λ x. remove x p.by_fee_density) same_rank),
        length-remove_present id p.entries f at,
      )

-- Not full, or empty, as the eviction loop leaves a pool.
abbrev pub HasRoom : ℕ → Mempool → Type 0
HasRoom tx_bytes p = (is_full tx_bytes p ≡ false) ⊎ (length p.entries ≡ 0)

by_length :
    (m : Map Hash256 MempoolEntry) (p q : Mempool) (P : Mempool → Type 0)
    → (length m ≡ 0 → P p)
    → (0 < length m → P q)
    → P (elim m [ [] ↦ p | _ ∷ _ ↦ q ])
by_length [] p q P a b = a refl
by_length (x ∷ m) p q P a b = b (omega arith)

evict_while_full_room :
    (rounds tx_bytes : ℕ) (p : Mempool)
    → IsRanked p
    → length p.entries ≤ rounds
    → IsRanked (evict_while_full rounds tx_bytes p)
      × HasRoom tx_bytes (evict_while_full rounds tx_bytes p)
unfolding evict_while_full evict_lowest
evict_while_full_room zero tx_bytes p r few = (r, inr (omega (arith, few)))
evict_while_full_room (suc rounds) tx_bytes p r few = elim (Bool-cases (is_full tx_bytes p)) [
  | inr roomy ↦ rw (evict_while_full, roomy) (r, inl roomy)
  | inl full ↦
      rw (evict_while_full, full)
        (by_length p.entries p _ (λ q. IsRanked q × HasRoom tx_bytes q) (λ empty. (r, inr empty))
          (λ some_there.
            let (r1, shorter) = evict_first-shorter p.by_fee_density p refl r some_there in
            evict_while_full_room rounds tx_bytes (evict_lowest p) r1
              (omega (arith, shorter, few))))
]

below : (tx_bytes : ℕ) (p : Mempool) → HasRoom tx_bytes p → length p.entries < mempool_capacity
unfolding is_full
below tx_bytes p (inl roomy) = leb→gt mempool_capacity (length p.entries) (ground (arith, roomy))
below tx_bytes p (inr empty) = omega (arith, empty)

-- The fuel of the eviction loop suffices: from a ranked pool, as many rounds as it has entries leave
-- a ranked pool that is not full, or empty.
pub HasRoom-evict_while_full :
    (tx_bytes : ℕ) (p : Mempool)
    → IsRanked p
    → IsRanked (evict_while_full (length p.entries) tx_bytes p)
      × HasRoom tx_bytes (evict_while_full (length p.entries) tx_bytes p)
HasRoom-evict_while_full tx_bytes p r =
    evict_while_full_room (length p.entries) tx_bytes p r (omega arith)

evict_for_room :
    (fee_density tx_bytes : ℕ) (ranks : Map Density Hash256) (p : Mempool)
    → p.by_fee_density ≡ ranks
    → IsRanked p
    → (evict_for fee_density tx_bytes ranks p).0 ≡ ok tt
    → IsRanked (evict_for fee_density tx_bytes ranks p).1
      × HasRoom tx_bytes (evict_for fee_density tx_bytes ranks p).1
unfolding evict_for
evict_for_room fee_density tx_bytes [] p e r h = (
  r,
  elim (Bool-cases (ltb 0 (length p.entries))) [
    | inl more ↦ inr (unranked_empty p e r (ltb→lt 0 (length p.entries) more))
    | inr none_there ↦ inr (omega (arith, ltb→ge 0 (length p.entries) none_there))
  ],
)
evict_for_room fee_density tx_bytes (((worst, id), id') ∷ rest) p e r h =
    elim (Bool-cases (leb fee_density worst)) [
      | inl low ↦ cc (rw (evict_for, low) at h)
      | inr high ↦ rw (evict_for, high) (HasRoom-evict_while_full tx_bytes p r)
    ]

-- Where room is made, the pool is ranked as before, and has fewer entries than its capacity.
pub make_room_capacity :
    (fee_density tx_bytes : ℕ) (p : Mempool)
    → IsRanked p
    → (make_room fee_density tx_bytes p).0 ≡ ok tt
    → IsRanked (make_room fee_density tx_bytes p).1
      × (length (make_room fee_density tx_bytes p).1.entries < mempool_capacity)
unfolding make_room
make_room_capacity fee_density tx_bytes p r h = elim (Bool-cases (is_full tx_bytes p)) [
  | inr roomy ↦ rw (make_room, roomy) (r, below tx_bytes p (inl roomy))
  | inl full ↦
      let (r1, room) =
        evict_for_room fee_density tx_bytes p.by_fee_density p refl r (rw (make_room, full) at h) in
      rw (make_room, full) (r1, below tx_bytes _ room)
]
