-- ===== src/Types/Amount.antt =====
-- types/amount.rs: amounts in the smallest unit, with checked arithmetic.
use exfer.Common.{
  ℕ, ◌+◌, ◌<◌, ◌^◌, ◌≡◌, arith, ltb, Bool, ◌==◌, Option, none, some, List, [], ◌∷◌, IsU64,
  checked_add_u64, checked_sub_u64, checked_mul_u64, if◌then◌else◌, and_then,
}

-- `Amount(u64)` is its number.
abbrev pub Amount : Type 0
Amount = ℕ

abbrev pub exfer_unit : ℕ
exfer_unit = 100_000_000

unfoldable pub from_exfer : ℕ → Option Amount
from_exfer whole = checked_mul_u64 whole exfer_unit

unfoldable pub checked_add : Amount → Amount → Option Amount
checked_add a b = checked_add_u64 a b

unfoldable pub checked_sub : Amount → Amount → Option Amount
checked_sub a b = checked_sub_u64 a b

unfoldable pub is_zero : Amount → Bool
is_zero a = a == 0

-- `for &a in amounts { total = total.checked_add(a)?; }`
unfoldable sum_onto : Amount → List Amount → Option Amount
sum_onto total [] = some total
sum_onto total (a ∷ rest) = and_then (checked_add total a) (λ total'. sum_onto total' rest)

unfoldable pub sum_amounts : List Amount → Option Amount
unfolding sum_onto
sum_amounts amounts = sum_onto 0 amounts

-- The sum without a bound.
abbrev pub total : List ℕ → ℕ
total [] = 0
total (a ∷ rest) = a + total rest

sum_onto-total :
    (acc : ℕ) (xs : List ℕ)
    → acc < 2 ^ 64
    → sum_onto acc xs ≡ (if ltb (acc + total xs) (2 ^ 64) then some (acc + total xs) else none)
unfolding sum_onto checked_add
sum_onto-total acc [] h = ground arith
sum_onto-total acc (a ∷ rest) h = ground (arith, sum_onto-total (acc + a) rest)

-- `sum_amounts` returns the exact sum where that fits a u64, and `None` where it does not.
pub sum_amounts-total :
    (xs : List Amount)
    → sum_amounts xs ≡ (if ltb (total xs) (2 ^ 64) then some (total xs) else none)
unfolding sum_amounts
sum_amounts-total xs = ground (arith, sum_onto-total 0 xs)

-- Where the sum of two amounts exists, subtracting one gives back the other; a sum that does not
-- exist is one that a u64 cannot hold.
pub checked_sub-checked_add :
    (a b : Amount)
    → IsU64 a
    → and_then (checked_add a b) (λ c. checked_sub c b)
      ≡ (if ltb (a + b) (2 ^ 64) then some a else none)
unfolding checked_add checked_sub
checked_sub-checked_add a b h = ground arith
