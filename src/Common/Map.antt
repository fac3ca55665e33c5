-- ===== src/Common/Map.antt =====
-- Ordered maps and sets: `BTreeMap`, `BTreeSet`, and the hash maps and sets of the source, as
-- association lists that are kept in key order. Iteration is over the list.
use exfer.Common.Tests.{◌==◌, ltb, if◌then◌else◌, Bool-cases}
use exfer.Common.Words.{Bytes, bytes_eq, bytes_eq_iff}
use exfer.Common.Lists.{length}
use Prim.Native.Nat.{◌+◌, ◌≤◌, ◌<◌}
use mathlib.Core.Path.{◌≡◌, refl, ap}
use mathlib.Core.Bool.{Bool, true, false}
use mathlib.Core.Logic.{◌↔◌, inl, inr, ◌≢◌}
use mathlib.Core.Option.{Option, none, some}
use mathlib.Core.List.{List, [], ◌∷◌}
use native.Mathlib.Omega.{arith}

-- Keys: `Eq` and `Ord`. The order decides where an entry stands, and nothing else.
pub record Key {ℓ} (K : Type ℓ) : Type ℓ where
  pub beq : K → K → Bool
  pub beq_iff : (a b : K) → (beq a b ≡ true) ↔ (a ≡ b)
  pub before : K → K → Bool

-- Byte strings in lexicographic order.
unfoldable pub bytes_before : Bytes → Bytes → Bool
bytes_before [] [] = false
bytes_before [] (y ∷ ys) = true
bytes_before (x ∷ xs) [] = false
bytes_before (x ∷ xs) (y ∷ ys) =
    let rest = bytes_before xs ys in if ltb x y then true else if x == y then rest else false

instance abbrev pub bytes_key : Key Bytes
bytes_key = record { beq = bytes_eq; beq_iff = bytes_eq_iff; before = bytes_before }

abbrev pub Map {ℓ} : Type ℓ → Type ℓ → Type ℓ
Map K V = List (K × V)

abbrev pub Set : Type 0 → Type 0
Set K = Map K (Unit {0})

abbrev pub is_some {ℓ} : {A : Type ℓ} → Option A → Bool
is_some none = false
is_some (some a) = true

module _ {ℓ} {K : Type ℓ} ⦃key : Key K⦄ where
  pub beq_left : (i j k : K) → key.beq i j ≡ true → key.beq i k ≡ key.beq j k
  beq_left i j k h = ap (λ x. key.beq x k) ((key.beq_iff i j).0 h)

  pub beq_right : (i j k : K) → key.beq j k ≡ true → key.beq i j ≡ key.beq i k
  beq_right i j k h = ap (λ x. key.beq i x) ((key.beq_iff j k).0 h)

  pub beq_refl : (k : K) → key.beq k k ≡ true
  beq_refl k = (key.beq_iff k k).1 refl

  pub beq_ne : (k j : K) → k ≢ j → key.beq k j ≡ false
  beq_ne k j h = elim (Bool-cases (key.beq k j)) [
    | inl e ↦ absurd (h ((key.beq_iff k j).0 e))
    | inr e ↦ e
  ]

module _ {ℓ} {K V : Type ℓ} ⦃key : Key K⦄ where
  unfoldable pub lookup : K → Map K V → Option V
  lookup k [] = none
  lookup k ((j, v) ∷ m) = if key.beq j k then some v else lookup k m

  -- `insert` replaces the value of a key that is there.
  unfoldable pub insert : K → V → Map K V → Map K V
  insert k v [] = (k, v) ∷ []
  insert k v ((j, w) ∷ m) =
      if key.beq j k
      then (k, v) ∷ m
      else if key.before k j
      then (k, v) ∷ (j, w) ∷ m
      else (j, w) ∷ insert k v m

  unfoldable pub remove : K → Map K V → Map K V
  remove k [] = []
  remove k ((j, v) ∷ m) = let rest = remove k m in if key.beq j k then rest else (j, v) ∷ rest

  abbrev pub contains : K → Map K V → Bool
  contains k m = is_some (lookup k m)

  pub lookup-insert :
      (k j : K) (v : V) (m : Map K V)
      → lookup j (insert k v m) ≡ (if key.beq k j then some v else lookup j m)
  unfolding lookup insert
  lookup-insert k j v [] = refl
  lookup-insert k j v ((i, w) ∷ m) =
      ground (arith, lookup-insert k j v m, beq_left i k j, beq_right i k j)

  pub lookup-remove :
      (k j : K) (m : Map K V) → lookup j (remove k m) ≡ (if key.beq k j then none else lookup j m)
  unfolding lookup remove
  lookup-remove k j [] = ground arith
  lookup-remove k j ((i, w) ∷ m) =
      ground (arith, lookup-remove k j m, beq_left i k j, beq_right i k j)

  pub lookup-insert_self : (k : K) (v : V) (m : Map K V) → lookup k (insert k v m) ≡ some v
  lookup-insert_self k v m = rw (lookup-insert k k v m, beq_refl k)

  pub lookup-remove_self : (k : K) (m : Map K V) → lookup k (remove k m) ≡ none
  lookup-remove_self k m = rw (lookup-remove k k m, beq_refl k)

  pub length-remove : (k : K) (m : Map K V) → length (remove k m) ≤ length m
  unfolding remove
  length-remove k [] = omega arith
  length-remove k ((j, v) ∷ m) = ground (arith, length-remove k m)

  pub length-remove_present :
      (k : K) (m : Map K V) (v : V) → lookup k m ≡ some v → length (remove k m) < length m
  unfolding lookup remove
  length-remove_present k [] v h = cc
  length-remove_present k ((j, w) ∷ m) v h =
      ground (arith, length-remove_present k m v, length-remove k m)

  pub length-insert : (k : K) (v : V) (m : Map K V) → length (insert k v m) ≤ length m + 1
  unfolding insert
  length-insert k v [] = omega arith
  length-insert k v ((j, w) ∷ m) = ground (arith, length-insert k v m)
