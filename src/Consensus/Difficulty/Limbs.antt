-- ===== src/Consensus/Difficulty/Limbs.antt =====
-- consensus/difficulty.rs: the u64 limbs of `mul_div_256`, and the two passes over them.
use exfer.Common.{
  ℕ, zero, suc, ◌+◌, ◌-◌, ◌*◌, ◌/◌, ◌%◌, ◌^◌, ◌≤◌, ◌<◌, ◌≡◌, refl, ap, sym, ◌∙◌, arith, List, [],
  ◌∷◌, Bytes, length, take, drop, take-append-drop, length-take_le, length-drop, from_be,
  from_be_onto, Option, some, All, le→ltb, drop-add,
}
use native.Mathlib.Nat.{div-lt_iff_lt-mul, pow-suc, div-add-mod}
use exfer.Consensus.Digits.{value, AllBelow, value-lt, value-append}
use exfer.Consensus.Difficulty.Arith.{IsU256, number, limbs, mul_limbs, div_limbs}

abbrev pub limb_base : ℕ
limb_base = 2 ^ 64

from_be_onto-value :
    (acc : ℕ) (bs : Bytes) → from_be_onto acc bs ≡ acc * 256 ^ length bs + value 256 bs
unfolding value
from_be_onto-value acc [] = omega arith
from_be_onto-value acc (b ∷ bs) = omega (
  arith,
  from_be_onto-value (acc * 256 + b) bs,
  ap (λ (t : ℕ). acc * t) (pow-suc 256 (length bs)),
)

from_be-value : (bs : Bytes) → from_be bs ≡ value 256 bs
from_be-value bs = omega (arith, from_be_onto-value 0 bs)

All-take : (P : ℕ → Type 0) (n : ℕ) (xs : List ℕ) → All P xs → All P (take n xs)
All-take P zero xs h = tt
All-take P (suc n) [] h = tt
All-take P (suc n) (x ∷ xs) (hx, hs) = (hx, All-take P n xs hs)

All-drop : (P : ℕ → Type 0) (n : ℕ) (xs : List ℕ) → All P xs → All P (drop n xs)
All-drop P zero xs h = h
All-drop P (suc n) [] h = tt
All-drop P (suc n) (x ∷ xs) (hx, hs) = All-drop P n xs hs

-- Eight bytes at the front, and those behind.
split_eight :
    (k : ℕ) (v : Bytes)
    → length v ≡ 8 + k
    → value 256 v ≡ from_be (take 8 v) * 256 ^ k + value 256 (drop 8 v)
split_eight k v h =
    let len : length (drop 8 v) ≡ k = omega (arith, length-drop 8 v) in
    ap (value 256) (sym (take-append-drop 8 v))
    ∙ value-append 256 (take 8 v) (drop 8 v)
    ∙ rw (len, from_be-value (take 8 v))

limb_lt : (v : Bytes) → 8 ≤ length v → AllBelow 256 v → from_be (take 8 v) < limb_base
limb_lt v h below = omega (
  arith,
  from_be-value (take 8 v),
  rw (length-take_le 8 v h) at (value-lt 256 (take 8 v) (All-take (λ b. b < 256) 8 v below)),
)

value_empty : (v : Bytes) → length v ≡ 0 → value 256 v ≡ 0
unfolding value
value_empty [] h = refl
value_empty (b ∷ bs) h = absurd (omega arith)

pub value-limbs : (v : Bytes) → IsU256 v → value limb_base (limbs v) ≡ number v
unfolding limbs value
value-limbs v h =
    let s1 = split_eight 24 v h.size in
    let s2 = split_eight 16 (drop 8 v) (omega (arith, length-drop 8 v, h.size)) in
    let s3 = split_eight 8 (drop 16 v) (omega (arith, length-drop 16 v, h.size)) in
    let s4 = split_eight 0 (drop 24 v) (omega (arith, length-drop 24 v, h.size)) in
    let t2 = rw (← drop-add 8 8 v) at s2 in
    let t3 = rw (← drop-add 16 8 v) at s3 in
    let t4 = rw (← drop-add 24 8 v) at s4 in
    omega (arith, s1, t2, t3, t4, value_empty (drop 32 v) (omega (arith, length-drop 32 v, h.size)))

pub AllBelow-limbs : (v : Bytes) → IsU256 v → AllBelow limb_base (limbs v)
unfolding limbs
AllBelow-limbs v h = (
  limb_lt v (omega (arith, h.size)) h.digits,
  (
    limb_lt (drop 8 v) (omega (arith, h.size, length-drop 8 v))
        (All-drop (λ b. b < 256) 8 v h.digits),
    (
      limb_lt (drop 16 v) (omega (arith, h.size, length-drop 16 v))
          (All-drop (λ b. b < 256) 16 v h.digits),
      (
        limb_lt (drop 24 v) (omega (arith, h.size, length-drop 24 v))
            (All-drop (λ b. b < 256) 24 v h.digits),
        tt,
      ),
    ),
  ),
)

pub length-mul_limbs : (num : ℕ) (xs : List ℕ) → length (mul_limbs num xs).0 ≡ length xs
unfolding mul_limbs
length-mul_limbs num [] = refl
length-mul_limbs num (x ∷ xs) = ap suc (length-mul_limbs num xs)

pub AllBelow-mul_limbs : (num : ℕ) (xs : List ℕ) → AllBelow limb_base (mul_limbs num xs).0
unfolding mul_limbs
AllBelow-mul_limbs num [] = tt
AllBelow-mul_limbs num (x ∷ xs) = (omega arith, AllBelow-mul_limbs num xs)

pub mul_limbs-value :
    (num : ℕ) (xs : List ℕ)
    → value limb_base (mul_limbs num xs).0 + (mul_limbs num xs).1 * limb_base ^ length xs
      ≡ value limb_base xs * num
unfolding mul_limbs value
mul_limbs-value num [] = omega arith
mul_limbs-value num (x ∷ xs) =
    let val = x * num + (mul_limbs num xs).1 in
    rw (length-mul_limbs num xs) (
      omega (
        arith,
        mul_limbs-value num xs,
        ap (λ (t : ℕ). t * limb_base ^ length xs) (div-add-mod val limb_base),
        ap (λ (t : ℕ). val / limb_base * t) (pow-suc limb_base (length xs)),
      ))

-- The long division: the quotient of what the remainder and the limbs stand for.
pub record Divided (den total : ℕ) (n : ℕ) (result : Option (List ℕ)) : Type 0 where
  pub quotient : List ℕ
  pub found : result ≡ some quotient
  pub size : length quotient ≡ n
  pub digits : AllBelow limb_base quotient
  pub below : value limb_base quotient * den ≤ total
  pub above : total < (value limb_base quotient + 1) * den

pub div_limbs_value :
    (den remainder : ℕ) (xs : List ℕ)
    → remainder < den
    → AllBelow limb_base xs
    → Divided den
        (remainder * limb_base ^ length xs + value limb_base xs)
        (length xs)
        (div_limbs den remainder xs)
unfolding div_limbs value
div_limbs_value den remainder [] h below = record {
  quotient = [];
  found = refl;
  size = refl;
  digits = tt;
  below = omega arith;
  above = omega arith;
}
div_limbs_value den remainder (x ∷ xs) h (hx, hs) =
    let cur = remainder * limb_base + x in
    let p = limb_base ^ length xs in
    let ih = div_limbs_value den (cur % den) xs (omega arith) hs in
    let q_lt : cur / den < limb_base =
      (div-lt_iff_lt-mul {k = den} {x = cur} {y = limb_base} (omega arith)).1 (omega arith) in
    let split : cur * p ≡ (den * (cur / den) + cur % den) * p =
      ap (λ (t : ℕ). t * p) (sym (div-add-mod cur den)) in
    let widen : remainder * limb_base ^ suc (length xs) ≡ remainder * (p * limb_base) =
      ap (λ (t : ℕ). remainder * t) (pow-suc limb_base (length xs)) in
    record {
      quotient = cur / den ∷ ih.quotient;
      found = rw (le→ltb (limb_base - 1) (cur / den) (omega arith), ih.found);
      size = ap suc ih.size;
      digits = (q_lt, ih.digits);
      below = rw ih.size (omega (arith, ih.below, split, widen));
      above = rw ih.size (omega (arith, ih.above, split, widen));
    }

pub length-limbs : (v : Bytes) → length (limbs v) ≡ 4
unfolding limbs
length-limbs v = refl
