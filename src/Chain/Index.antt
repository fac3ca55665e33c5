-- ===== src/Chain/Index.antt =====
-- The index from scripts to the ids that touch them, which chain/state.rs and mempool/mempool.rs
-- both keep: `BTreeMap<Vec<u8>, BTreeSet<K>>` without an empty set.
use exfer.Common.{
  Option-cases, inl, inr, ◌≡◌, arith, Bool, true, false, none, some, [], ◌∷◌, if◌then◌else◌, ◌&&◌,
  Bytes, bytes_eq, bytes_eq_iff,
}
use mathlib.Core.Option.{get_or}
use exfer.Common.Map.{
  Map, Set, Key, lookup, insert, remove, contains, lookup-insert, lookup-remove, bytes_key,
}

module _ {K : Type 0} ⦃key : Key K⦄ where
  -- `by_script.entry(script).or_default().insert(k)`
  unfoldable pub index : Bytes → K → Map Bytes (Set K) → Map Bytes (Set K)
  index script k m = insert script (insert k tt (get_or (lookup script m) [])) m

  -- The entry of a script that has nothing left is dropped.
  unfoldable pub put_back : Bytes → Set K → Map Bytes (Set K) → Map Bytes (Set K)
  put_back script [] m = remove script m
  put_back script (k ∷ ks) m = insert script (k ∷ ks) m

  unfoldable pub unindex : Bytes → K → Map Bytes (Set K) → Map Bytes (Set K)
  unindex script k m = elim (lookup script m) [
    | none ↦ m
    | some ks ↦ put_back script (remove k ks) m
  ]

  -- `k` is indexed under `script`.
  unfoldable pub indexed : Bytes → K → Map Bytes (Set K) → Bool
  indexed script k m = contains k (get_or (lookup script m) [])

  -- What one call changes in the index.
  pub indexed-index :
      (script other : Bytes) (k j : K) (m : Map Bytes (Set K))
      → indexed other j (index script k m)
        ≡ (if bytes_eq script other && key.beq k j then true else indexed other j m)
  unfolding indexed index
  indexed-index script other k j m = ground (
    arith,
    bytes_eq_iff script other,
    lookup-insert script other (insert k tt (get_or (lookup script m) [])) m,
    lookup-insert k j tt (get_or (lookup script m) []),
  )

  indexed-put_back :
      (script other : Bytes) (ks : Set K) (j : K) (m : Map Bytes (Set K))
      → indexed other j (put_back script ks m)
        ≡ (if bytes_eq script other then contains j ks else indexed other j m)
  unfolding indexed put_back lookup
  indexed-put_back script other [] j m = ground (arith, lookup-remove script other m)
  indexed-put_back script other (k ∷ ks) j m = ground (arith, lookup-insert script other (k ∷ ks) m)

  indexed_missing :
      (script other : Bytes) (j : K) (m : Map Bytes (Set K))
      → lookup script m ≡ none
      → bytes_eq script other ≡ true
      → indexed other j m ≡ false
  unfolding indexed lookup
  indexed_missing script other j m missing same =
      rw (rw ((bytes_eq_iff script other).0 same) at missing)

  indexed_there :
      (script other : Bytes) (j : K) (m : Map Bytes (Set K)) (ks : Set K)
      → lookup script m ≡ some ks
      → bytes_eq script other ≡ true
      → indexed other j m ≡ contains j ks
  unfolding indexed
  indexed_there script other j m ks there same =
      rw (rw ((bytes_eq_iff script other).0 same) at there)

  pub indexed-unindex :
      (script other : Bytes) (k j : K) (m : Map Bytes (Set K))
      → indexed other j (unindex script k m)
        ≡ (if bytes_eq script other && key.beq k j then false else indexed other j m)
  unfolding unindex indexed
  indexed-unindex script other k j m = elim (Option-cases (lookup script m)) [
    | inl missing ↦ rw (unindex, missing) (ground (arith, indexed_missing script other j m missing))
    | inr (ks, there) ↦
        rw (unindex, there)
          (ground (
            arith,
            indexed_there script other j m ks there,
            indexed-put_back script other (remove k ks) j m,
            lookup-remove k j ks,
          ))
  ]
