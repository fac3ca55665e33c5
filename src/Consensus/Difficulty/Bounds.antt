-- ===== src/Consensus/Difficulty/Bounds.antt =====
-- consensus/difficulty.rs: how far `retarget` moves a target.
use exfer.Common.{
  ℕ, zero, suc, ◌-◌, ◌*◌, ◌/◌, ◌^◌, ◌≤◌, ◌<◌, ◌≡◌, refl, ap, ◌∙◌, arith, min, max, Bytes, length,
  bytes_eq, bytes_eq_iff, Bool-cases, inl, inr, [], ◌∷◌, replicate, ◌++◌, false,
}
use native.Mathlib.Nat.{one-le-pow}
use exfer.Consensus.Digits.{value}
use exfer.Consensus.Difficulty.Arith.{IsU256, number, zeros, mul_div_256}
use exfer.Consensus.Difficulty.Retarget.{retarget, clamped_time, expected_time}
use exfer.Consensus.Difficulty.Scaling.{number-mul_div_256, IsU256-mul_div_256}

number-zeros : number zeros ≡ 0
unfolding value
number-zeros = refl

number_one : number (replicate 31 0 ++ 1 ∷ []) ≡ 1
unfolding value
number_one = refl

number_pos : (n : ℕ) (v : Bytes) → length v ≡ n → bytes_eq v (replicate n 0) ≡ false → 0 < number v
unfolding value bytes_eq
number_pos zero [] e h = cc
number_pos zero (b ∷ bs) e h = absurd (omega arith)
number_pos (suc n) [] e h = absurd (omega arith)
number_pos (suc n) (zero ∷ bs) e h = omega (arith, number_pos n bs (omega arith) h)
number_pos (suc n) (suc b ∷ bs) e h =
    let p : 1 ≤ 256 ^ length bs = one-le-pow (length bs) 256 (omega arith) in grind arith

-- `retarget` scales the old target by the clamped time over the expected time, rounds down, and
-- keeps the result between 1 and 2^256 - 1.
pub number-retarget :
    (old : Bytes) (time : ℕ)
    → IsU256 old
    → number (retarget old time)
      ≡ max 1 (min (number old * clamped_time time / expected_time) (2 ^ 256 - 1))
unfolding retarget
number-retarget old time h =
    let new = mul_div_256 old (clamped_time time) expected_time in
    let e = number-mul_div_256 old (clamped_time time) expected_time h (omega arith) in
    elim (Bool-cases (bytes_eq new zeros)) [
      | inl z ↦
          let n : number new ≡ 0 = ap number ((bytes_eq_iff new zeros).0 z) ∙ number-zeros in
          rw z (omega (arith, number_one, e, n))
      | inr nz ↦ rw nz (
          omega (
            arith,
            e,
            number_pos 32 new
                (IsU256-mul_div_256 old (clamped_time time) expected_time h (omega arith)).size nz,
          ))
    ]

-- The clamped time lies between 10797 and 172760, whatever the time.
pub clamped_time_bounds : (time : ℕ) → (10797 ≤ clamped_time time) × (clamped_time time ≤ 172760)
unfolding clamped_time
clamped_time_bounds time = ground arith

-- One retarget raises a target by a factor of four at most, and never to zero.
pub retarget_le_four :
    (old : Bytes) (time : ℕ)
    → IsU256 old
    → 0 < number old
    → (0 < number (retarget old time)) × (number (retarget old time) ≤ 4 * number old)
retarget_le_four old time h pos =
    let b = clamped_time_bounds time in
    let grow : number old * clamped_time time ≤ number old * 172760 = grind arith in
    (omega (arith, number-retarget old time h), omega (arith, number-retarget old time h, grow))

-- The lower clamp is 10797 of 43190, less than a quarter: for a target of at least 200000 and
-- blocks in 10797 seconds or fewer, the new target lies below a quarter of the old one.
pub retarget_below_quarter :
    (old : Bytes) (time : ℕ)
    → IsU256 old
    → 200000 ≤ number old
    → time ≤ 10797
    → number (retarget old time) < number old / 4
retarget_below_quarter old time h large fast =
    let c : clamped_time time ≡ 10797 = unfold clamped_time in ground arith in
    let e = rw c at (number-retarget old time h) in omega (arith, e)
