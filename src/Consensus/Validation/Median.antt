-- ===== src/Consensus/Validation/Median.antt =====
-- consensus/validation.rs: what the median of the timestamps is.
use exfer.Common.{
  ℕ, zero, suc, ◌+◌, ◌*◌, ◌/◌, ◌≤◌, ◌<◌, ◌≡◌, refl, ◌∙◌, ap, arith, Bool, Bool-cases, inl, inr,
  List, [], ◌∷◌, All, length, get_or, ltb, leb, ◌==◌, if◌then◌else◌, leb→le, leb→gt,
}
use exfer.Consensus.Validation.Defs.{insert_sorted, sort, median_time_past}

-- How many elements pass a test.
abbrev pub count : (ℕ → Bool) → List ℕ → ℕ
count p [] = 0
count p (x ∷ xs) = (if p x then 1 else 0) + count p xs

abbrev IsSorted : List ℕ → Type 0
IsSorted [] = Unit
IsSorted (x ∷ xs) = All (λ y. x ≤ y) xs × IsSorted xs

count_le : (p : ℕ → Bool) (xs : List ℕ) → count p xs ≤ length xs
count_le p [] = omega arith
count_le p (x ∷ xs) = ground (arith, count_le p xs)

count-insert_sorted :
    (p : ℕ → Bool) (x : ℕ) (ys : List ℕ) → count p (insert_sorted x ys) ≡ count p (x ∷ ys)
unfolding insert_sorted
count-insert_sorted p x [] = refl
count-insert_sorted p x (y ∷ ys) = ground (arith, count-insert_sorted p x ys)

count-sort : (p : ℕ → Bool) (xs : List ℕ) → count p (sort xs) ≡ count p xs
unfolding sort
count-sort p [] = refl
count-sort p (x ∷ xs) = ground (arith, count-insert_sorted p x (sort xs), count-sort p xs)

length-insert_sorted : (x : ℕ) (ys : List ℕ) → length (insert_sorted x ys) ≡ suc (length ys)
unfolding insert_sorted
length-insert_sorted x [] = refl
length-insert_sorted x (y ∷ ys) = ground (arith, length-insert_sorted x ys)

length-sort : (xs : List ℕ) → length (sort xs) ≡ length xs
unfolding sort
length-sort [] = refl
length-sort (x ∷ xs) = length-insert_sorted x (sort xs) ∙ ap suc (length-sort xs)

All-weaken : (x y : ℕ) (ys : List ℕ) → x ≤ y → All (λ z. y ≤ z) ys → All (λ z. x ≤ z) ys
All-weaken x y [] h all = tt
All-weaken x y (z ∷ ys) h all = (omega (arith, h, all.0), All-weaken x y ys h all.1)

All-insert_sorted :
    (a x : ℕ) (ys : List ℕ) → a ≤ x → All (λ z. a ≤ z) ys → All (λ z. a ≤ z) (insert_sorted x ys)
unfolding insert_sorted
All-insert_sorted a x [] h all = (h, tt)
All-insert_sorted a x (y ∷ ys) h all = elim (Bool-cases (leb x y)) [
  | inl le ↦ rw le (h, all)
  | inr gt ↦ rw gt (all.0, All-insert_sorted a x ys h all.1)
]

IsSorted-insert_sorted : (x : ℕ) (ys : List ℕ) → IsSorted ys → IsSorted (insert_sorted x ys)
unfolding insert_sorted
IsSorted-insert_sorted x [] s = (tt, tt)
IsSorted-insert_sorted x (y ∷ ys) s = elim (Bool-cases (leb x y)) [
  | inl le ↦ let h = leb→le x y le in rw le ((h, All-weaken x y ys h s.0), s)
  | inr gt ↦
      let h = leb→gt x y gt in
      rw gt (All-insert_sorted y x ys (omega (arith, h)) s.0, IsSorted-insert_sorted x ys s.1)
]

sort-IsSorted : (xs : List ℕ) → IsSorted (sort xs)
unfolding sort
sort-IsSorted [] = tt
sort-IsSorted (x ∷ xs) = IsSorted-insert_sorted x (sort xs) (sort-IsSorted xs)

count_below_least : (x : ℕ) (xs : List ℕ) → All (λ y. x ≤ y) xs → count (λ t. ltb t x) xs ≡ 0
count_below_least x [] all = refl
count_below_least x (y ∷ xs) all = ground (arith, all.0, count_below_least x xs all.1)

All-get_or : (x : ℕ) (xs : List ℕ) (k : ℕ) → All (λ y. x ≤ y) xs → k < length xs → x ≤ get_or xs k 0
All-get_or x [] k all h = absurd (omega (arith, h))
All-get_or x (y ∷ xs) zero all h = all.0
All-get_or x (y ∷ xs) (suc k) all h = All-get_or x xs k all.1 (omega (arith, h))

-- At place k of a sorted list stands an element with at most k below it,
below_place :
    (s : List ℕ) (k : ℕ) → IsSorted s → k < length s → count (λ t. ltb t (get_or s k 0)) s ≤ k
below_place [] k sorted h = absurd (omega (arith, h))
below_place (x ∷ xs) zero sorted h = ground (arith, count_below_least x xs sorted.0)
below_place (x ∷ xs) (suc k) sorted h = ground (arith, below_place xs k sorted.1 (omega (arith, h)))

-- and fewer above it than come from place k on.
above_place :
    (s : List ℕ) (k : ℕ)
    → IsSorted s
    → k < length s
    → count (λ t. ltb (get_or s k 0) t) s + k < length s
above_place [] k sorted h = absurd (omega (arith, h))
above_place (x ∷ xs) zero sorted h = ground (arith, count_le (λ t. ltb x t) xs)
above_place (x ∷ xs) (suc k) sorted h =
    let inside : k < length xs = omega (arith, h) in
    ground (arith, All-get_or x xs k sorted.0 inside, above_place xs k sorted.1 inside)

at_place : (s : List ℕ) (k : ℕ) → k < length s → 0 < count (λ t. t == get_or s k 0) s
at_place [] k h = absurd (omega (arith, h))
at_place (x ∷ xs) zero h = ground arith
at_place (x ∷ xs) (suc k) h = ground (arith, at_place xs k (omega (arith, h)))

-- The median of one timestamp or more is one of them; at most half of them lie below it, and less
-- than half above it, whatever the order in which they are given.
pub median_time_past_lem :
    (ts : List ℕ)
    → 0 < length ts
    → (0 < count (λ t. t == median_time_past ts) ts)
      × (2 * count (λ t. ltb t (median_time_past ts)) ts ≤ length ts)
      × (2 * count (λ t. ltb (median_time_past ts) t) ts < length ts)
unfolding median_time_past
median_time_past_lem ts h =
    let s = sort ts in
    let k = length s / 2 in
    let m = get_or s k 0 in
    let sorted = sort-IsSorted ts in
    let inside : k < length s = omega (arith, length-sort ts, h) in
    (
      omega (arith, count-sort (λ t. t == m) ts, at_place s k inside),
      omega (arith, length-sort ts, count-sort (λ t. ltb t m) ts, below_place s k sorted inside),
      omega (arith, length-sort ts, count-sort (λ t. ltb m t) ts, above_place s k sorted inside),
    )
