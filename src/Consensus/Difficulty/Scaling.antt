-- ===== src/Consensus/Difficulty/Scaling.antt =====
-- consensus/difficulty.rs: the numbers that `mul_div_256` and `retarget` give.
use exfer.Common.{
  ℕ, zero, suc, ◌+◌, ◌-◌, ◌*◌, ◌/◌, ◌%◌, ◌^◌, ◌≤◌, ◌<◌, ◌≡◌, refl, ◌∙◌, arith, min, List, [], ◌∷◌,
  ◌++◌, Bytes, length, length-append, to_be, All, ltb, ltb→lt, ltb→ge, Bool-cases, inl, inr,
}
use native.Mathlib.Nat.{
  div-lt_iff_lt-mul, pow-suc, le-div_iff_mul-le, div-eq_of_lt-le, mod-eq_of_lt,
}
use exfer.Consensus.Digits.{value, AllBelow, value-lt, value-append}
use exfer.Consensus.Difficulty.Arith.{
  IsU256, number, ones, limbs, mul_limbs, limbs_to_bytes, mul_div_256,
}
use exfer.Consensus.Difficulty.Limbs.{
  length-limbs, limb_base, value-limbs, mul_limbs-value, length-mul_limbs, AllBelow-mul_limbs,
  div_limbs_value,
}

length-to_be : (k v : ℕ) → length (to_be k v) ≡ k
length-to_be zero v = refl
length-to_be (suc k) v =
    length-append (to_be k (v / 256)) (v % 256 ∷ []) ∙ omega (arith, length-to_be k (v / 256))

value-to_be : (k v : ℕ) → v < 256 ^ k → value 256 (to_be k v) ≡ v
unfolding value
value-to_be zero v h = omega arith
value-to_be (suc k) v h =
    value-append 256 (to_be k (v / 256)) (v % 256 ∷ [])
    ∙ omega (arith, value-to_be k (v / 256) (omega (arith, h, pow-suc 256 k)))

All-append : (P : ℕ → Type 0) (xs ys : List ℕ) → All P xs → All P ys → All P (xs ++ ys)
All-append P [] ys h k = k
All-append P (x ∷ xs) ys (hx, hs) k = (hx, All-append P xs ys hs k)

AllBelow-to_be : (k v : ℕ) → AllBelow 256 (to_be k v)
AllBelow-to_be zero v = tt
AllBelow-to_be (suc k) v =
    All-append (λ b. b < 256) (to_be k (v / 256)) (v % 256 ∷ []) (AllBelow-to_be k (v / 256))
      (omega arith, tt)

length-limbs_to_bytes : (xs : List ℕ) → length (limbs_to_bytes xs) ≡ 8 * length xs
unfolding limbs_to_bytes
length-limbs_to_bytes [] = omega arith
length-limbs_to_bytes (x ∷ xs) =
    length-append (to_be 8 x) (limbs_to_bytes xs)
    ∙ omega (arith, length-to_be 8 x, length-limbs_to_bytes xs)

AllBelow-limbs_to_bytes : (xs : List ℕ) → AllBelow 256 (limbs_to_bytes xs)
unfolding limbs_to_bytes
AllBelow-limbs_to_bytes [] = tt
AllBelow-limbs_to_bytes (x ∷ xs) =
    All-append (λ b. b < 256) (to_be 8 x) (limbs_to_bytes xs) (AllBelow-to_be 8 x)
      (AllBelow-limbs_to_bytes xs)

pow_eight : (n : ℕ) → 256 ^ (8 * n) ≡ limb_base ^ n
pow_eight zero = refl
pow_eight (suc n) =
    let e : 8 * suc n ≡ suc (suc (suc (suc (suc (suc (suc (suc (8 * n)))))))) = omega arith in
    rw e (simp pow-suc (omega (arith, pow_eight n)))

number-limbs_to_bytes :
    (xs : List ℕ) → AllBelow limb_base xs → number (limbs_to_bytes xs) ≡ value limb_base xs
unfolding limbs_to_bytes value
number-limbs_to_bytes [] h = refl
number-limbs_to_bytes (x ∷ xs) (hx, hs) =
    value-append 256 (to_be 8 x) (limbs_to_bytes xs)
    ∙ rw (
      value-to_be 8 x hx,
      length-limbs_to_bytes xs,
      pow_eight (length xs),
      number-limbs_to_bytes xs hs,
    )

-- The product that the first pass leaves, as a number.
module _ (v : Bytes) (num : ℕ) (h : IsU256 v) where
  product_value :
      value limb_base (mul_limbs num (limbs v)).0 + (mul_limbs num (limbs v)).1 * limb_base ^ 4
      ≡ number v * num
  product_value = rw (length-limbs v, value-limbs v h) at (mul_limbs-value num (limbs v))

  length-product : length (mul_limbs num (limbs v)).0 ≡ 4
  length-product = length-mul_limbs num (limbs v) ∙ length-limbs v

value_ones : number ones ≡ 2 ^ 256 - 1
unfolding value
value_ones = refl

-- `mul_div_256` multiplies and divides as numbers do, and gives 2^256 - 1 where the quotient does
-- not fit 256 bits.
pub number-mul_div_256 :
    (v : Bytes) (num den : ℕ)
    → IsU256 v
    → 0 < den
    → number (mul_div_256 v num den) ≡ min (number v * num / den) (2 ^ 256 - 1)
unfolding mul_div_256
number-mul_div_256 v num den h pos =
    let (product, carry) = mul_limbs num (limbs v) in
    elim (Bool-cases (ltb 0 (carry / den))) [
      | inl more ↦
          let over : 2 ^ 256 * den ≤ number v * num = omega (
            arith,
            product_value v num h,
            (le-div_iff_mul-le {k = den} {x = 1} {y = carry} pos).0 (ltb→lt 0 (carry / den) more),
          ) in
          rw more
            (omega (arith, value_ones, (le-div_iff_mul-le {k = den} {x = 2 ^ 256} pos).1 over))
      | inr less ↦
          let small : carry < den = omega (
            arith,
            (div-lt_iff_lt-mul {k = den} {x = carry} {y = 1} pos).0
                (omega (arith, ltb→ge 0 (carry / den) less)),
          ) in
          let d =
            div_limbs_value den (carry % den) product (omega arith)
              (AllBelow-mul_limbs num (limbs v)) in
          let same : carry % den * limb_base ^ length product + value limb_base product
              ≡ number v * num =
            rw (length-product v num h, mod-eq_of_lt small)
              (omega (arith, product_value v num h)) in
          let q : number v * num / den ≡ value limb_base d.quotient =
            div-eq_of_lt-le {k = value limb_base d.quotient} den (rw (← same) d.below)
              (rw (← same) d.above) in
          rw (less, d.found, number-limbs_to_bytes d.quotient d.digits)
            (omega (
              arith,
              q,
              rw (d.size, length-product v num h) at (value-lt limb_base d.quotient d.digits),
            ))
    ]

IsU256-ones : IsU256 ones
IsU256-ones = record { size = refl; digits = omega arith }

-- The result is again 32 bytes.
pub IsU256-mul_div_256 :
    (v : Bytes) (num den : ℕ) → IsU256 v → 0 < den → IsU256 (mul_div_256 v num den)
unfolding mul_div_256
IsU256-mul_div_256 v num den h pos =
    let (product, carry) = mul_limbs num (limbs v) in
    elim (Bool-cases (ltb 0 (carry / den))) [
      | inl more ↦ rw more IsU256-ones
      | inr less ↦
          let d =
            div_limbs_value den (carry % den) product (omega arith)
              (AllBelow-mul_limbs num (limbs v)) in
          rw (less, d.found)
            (record {
              size =
                  length-limbs_to_bytes d.quotient ∙ omega (arith, d.size, length-product v num h);
              digits = AllBelow-limbs_to_bytes d.quotient;
            })
    ]
