-- ===== src/Consensus/Validation/Distinct.antt =====
-- consensus/validation.rs: the loops over identifiers and outpoints find exactly the repetitions.
use exfer.Common.{
  ◌≡◌, ◌≢◌, refl, ◌↔◌, arith, true, false, Bool-cases, inl, inr, none, List, [], ◌∷◌, All,
  if◌then◌else◌, Result, ok, err, >>=-eq-ok,
}
use exfer.Common.Map.{Set, Key, lookup, insert, contains, lookup-insert, beq_ne, bytes_key}
use exfer.Types.Hash.{Hash256, Sha}
use exfer.Types.Cursor.{SerError}
use exfer.Types.Transaction.{Transaction, tx_id}
use exfer.Consensus.Validation.Defs.{hash_all}
use exfer.Consensus.Validation.Header.{first_repeat, sized, check_ids}

-- No element occurs at two places.
abbrev pub IsDistinct : {K : Type 0} → List K → Type 0
IsDistinct [] = Unit
IsDistinct (k ∷ ks) = All (λ j. k ≢ j) ks × IsDistinct ks

module _ {K : Type 0} ⦃key : Key K⦄ where
  abbrev IsNew : Set K → K → Type 0
  IsNew seen k = contains k seen ≡ false

  contains-insert :
      (k j : K) (seen : Set K)
      → contains j (insert k tt seen) ≡ (if key.beq k j then true else contains j seen)
  contains-insert k j seen = ground (arith, lookup-insert k j tt seen)

  All-insert :
      (k : K) (ks : List K) (seen : Set K)
      → All (IsNew (insert k tt seen)) ks
      → All (λ j. k ≢ j) ks × All (IsNew seen) ks
  All-insert k [] seen h = (tt, tt)
  All-insert k (j ∷ ks) seen h =
      let (apart, new) = All-insert k ks seen h.1 in
      let e = contains-insert k j seen in
      (
        (λ same. absurd (ground (arith, e, h.0, (key.beq_iff k j).1 same)), apart),
        (ground (arith, e, h.0), new),
      )

  insert-All :
      (k : K) (ks : List K) (seen : Set K)
      → All (λ j. k ≢ j) ks
      → All (IsNew seen) ks
      → All (IsNew (insert k tt seen)) ks
  insert-All k [] seen apart new = tt
  insert-All k (j ∷ ks) seen apart new =
      (rw (contains-insert k j seen, beq_ne k j apart.0) new.0, insert-All k ks seen apart.1 new.1)

  first_repeat-none :
      (ks : List K) (seen : Set K)
      → first_repeat ks seen ≡ none
      → All (IsNew seen) ks × IsDistinct ks
  unfolding first_repeat
  first_repeat-none [] seen h = (tt, tt)
  first_repeat-none (k ∷ ks) seen h = elim (Bool-cases (contains k seen)) [
    | inl old ↦ absurd (cc (rw old at h))
    | inr new ↦
        let (later, distinct) = first_repeat-none ks (insert k tt seen) (rw new at h) in
        let (apart, rest) = All-insert k ks seen later in ((new, rest), (apart, distinct))
  ]

  none-first_repeat :
      (ks : List K) (seen : Set K)
      → All (IsNew seen) ks
      → IsDistinct ks
      → first_repeat ks seen ≡ none
  unfolding first_repeat
  none-first_repeat [] seen new distinct = refl
  none-first_repeat (k ∷ ks) seen new distinct =
      rw (new.0)
        (none-first_repeat ks (insert k tt seen) (insert-All k ks seen distinct.0 new.1) distinct.1)

  all-IsNew : (ks : List K) → All (IsNew []) ks
  unfolding lookup
  all-IsNew [] = tt
  all-IsNew (k ∷ ks) = (refl, all-IsNew ks)

  pub first_repeat-IsDistinct : (ks : List K) → (first_repeat ks [] ≡ none) ↔ IsDistinct ks
  first_repeat-IsDistinct ks =
      (λ h. (first_repeat-none ks [] h).1, λ h. none-first_repeat ks [] (all-IsNew ks) h)

pub sized-ok : {A : Type 0} (r : Result A SerError) (a : A) → (sized r ≡ ok a) ↔ (r ≡ ok a)
unfolding sized
sized-ok (ok b) a = (λ h. cc, λ h. cc)
sized-ok (err e) a = (λ h. cc, λ h. cc)

hash_all-cons :
    (hash : Transaction → Result Hash256 SerError) (tx : Transaction) (txs : List Transaction)
    (id : Hash256) (ids : List Hash256)
    → hash tx ≡ ok id
    → hash_all hash txs ≡ ok ids
    → hash_all hash (tx ∷ txs) ≡ ok (id ∷ ids)
unfolding hash_all
hash_all-cons hash tx txs id ids h k = rw (h, k)

module _ (sha : Sha) where
  -- All identifiers exist, and none repeats.
  abbrev pub HasIds : List Transaction → (List Hash256 → Type 0) → Type 0
  HasIds txs P = (ids : List Hash256) × (hash_all (tx_id sha) txs ≡ ok ids) × P ids

  check_ids-first_repeat :
      (txs : List Transaction) (seen : Set Hash256)
      → check_ids sha txs seen ≡ ok tt
      → HasIds txs (λ ids. first_repeat ids seen ≡ none)
  unfolding check_ids hash_all first_repeat
  check_ids-first_repeat [] seen h = ([], refl, refl)
  check_ids-first_repeat (tx ∷ txs) seen h =
      let (id, got, rest) = >>=-eq-ok (sized (tx_id sha tx)) _ h in
      elim (Bool-cases (contains id seen)) [
        | inl old ↦ absurd (cc (rw old at rest))
        | inr new ↦
            let (ids, all, free) =
              check_ids-first_repeat txs (insert id tt seen) (rw new at rest) in
            (
              id ∷ ids,
              hash_all-cons (tx_id sha) tx txs id ids ((sized-ok (tx_id sha tx) id).0 got) all,
              rw new free,
            )
      ]

  first_repeat-check_ids :
      (txs : List Transaction) (seen : Set Hash256) (ids : List Hash256)
      → hash_all (tx_id sha) txs ≡ ok ids
      → first_repeat ids seen ≡ none
      → check_ids sha txs seen ≡ ok tt
  unfolding check_ids hash_all first_repeat
  first_repeat-check_ids [] seen ids all free = refl
  first_repeat-check_ids (tx ∷ txs) seen [] all free =
      let (id, got, rest) = >>=-eq-ok (tx_id sha tx) _ all in
      let (ids, more, last) = >>=-eq-ok (hash_all (tx_id sha) txs) _ rest in absurd (cc)
  first_repeat-check_ids (tx ∷ txs) seen (i ∷ is) all free =
      let (id, got, rest) = >>=-eq-ok (tx_id sha tx) _ all in
      let (ids, more, last) = >>=-eq-ok (hash_all (tx_id sha) txs) _ rest in
      let e : id ≡ i = cc in
      let es : ids ≡ is = cc in
      elim (Bool-cases (contains i seen)) [
        | inl old ↦ absurd (cc (rw old at free))
        | inr new ↦
            rw ((sized-ok (tx_id sha tx) i).1 (rw e at got), new)
              (first_repeat-check_ids txs (insert i tt seen) is (rw es at more) (rw new at free))
      ]

  -- The loop accepts exactly the lists whose identifiers all exist and differ.
  pub check_ids-IsDistinct :
      (txs : List Transaction) → (check_ids sha txs [] ≡ ok tt) ↔ HasIds txs IsDistinct
  check_ids-IsDistinct txs = (
    λ h.
        let (ids, all, free) = check_ids-first_repeat txs [] h in
        (ids, all, (first_repeat-IsDistinct ids).0 free),
    λ (ids, all, distinct).
        first_repeat-check_ids txs [] ids all ((first_repeat-IsDistinct ids).1 distinct),
  )
