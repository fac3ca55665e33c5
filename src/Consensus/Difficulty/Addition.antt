-- ===== src/Consensus/Difficulty/Addition.antt =====
-- consensus/difficulty.rs: the number that `add_work` gives.
use exfer.Common.{
  ◌+◌, ◌-◌, ◌*◌, ◌^◌, ◌<◌, ◌≡◌, refl, arith, Bool-cases, inl, inr, ltb, ltb→lt, ltb→ge, min, Bytes,
  length,
}
use exfer.Consensus.Digits.{
  value, value-lt, add_digits, add_digits_value, length-add_digits, AllBelow-add_digits,
}
use exfer.Consensus.Difficulty.Arith.{ones, add_work, IsU256, number}

value_ones : number ones ≡ 2 ^ 256 - 1
unfolding value
value_ones = refl

-- `add_work` is the sum of the two numbers, or 2^256 - 1 where that is smaller.
pub number-add_work :
    (a b : Bytes)
    → IsU256 a
    → IsU256 b
    → number (add_work a b) ≡ min (number a + number b) (2 ^ 256 - 1)
unfolding add_work
number-add_work a b ha hb =
    let sum = add_digits 256 a b in
    let e : length a ≡ length b = omega (arith, ha.size, hb.size) in
    let total : number sum.0 + sum.1 * 256 ^ 32 ≡ number a + number b =
      rw ha.size at (add_digits_value 256 a b e) in
    let small : number sum.0 < 256 ^ 32 =
      rw (length-add_digits 256 a b e, ha.size) at
        (value-lt 256 sum.0 (AllBelow-add_digits 256 a b (omega arith))) in
    elim (Bool-cases (ltb 0 sum.1)) [
      | inl more ↦ rw more (omega (arith, value_ones, ltb→lt 0 sum.1 more, total))
      | inr none ↦ rw none (omega (arith, ltb→ge 0 sum.1 none, total, small))
    ]
