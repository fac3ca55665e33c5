-- ===== src/Consensus/Reward/Schedule.antt =====
-- consensus/reward.rs: the reward never rises from one block to the next, and where it lies.
use exfer.Common.{
  ℕ, suc, ◌+◌, ◌*◌, ◌/◌, ◌%◌, ◌^◌, ◌≤◌, ◌<◌, ◌≡◌, arith, ltb, Bool-cases, inl, inr, ltb→lt, ltb→ge,
  le→leb, gt→leb,
}
use native.Mathlib.Nat.{
  le_trans, div-mul-le_self, le-div_iff_mul-le, div-le_of_le-mul, mod-eq_of_lt, mul-div-mul_left,
  pow-le-pow_right, pow-suc,
}
use exfer.Consensus.Reward.{base_reward, decay_component, half_life, decay, interp, block_reward}
use exfer.Consensus.Reward.Table.{interp_bounds, interp_step, lut_last, lut_first, lut_antitone}

interp_le : (r : ℕ) → interp r ≤ 2 ^ 64
interp_le r = omega (arith, interp_bounds r, lut_antitone 0 (r / 1540) (omega arith), lut_first)

-- The product of the decay component and the interpolation fits the u128 of the source.
pub product_fits : (r : ℕ) → decay_component * interp r < 2 ^ 128
product_fits r = omega (arith, interp_le r)

div_mono : (x y n : ℕ) → 0 < n → x ≤ y → x / n ≤ y / n
div_mono x y n pos h =
    (le-div_iff_mul-le {k = n} {x = x / n} {y = y} pos).1 (le_trans (div-mul-le_self x n) h)

divisor_le : (q : ℕ) → 2 ^ 64 ≤ 2 ^ (64 + q)
divisor_le q = pow-le-pow_right {n = 2} (omega arith) {i = 64} {j = 64 + q} (omega arith)

-- A quotient by 2^(64 + q) fits 64 bits, so that the cast keeps it.
quotient_small : (q x : ℕ) → x ≤ decay_component * 2 ^ 64 → x / 2 ^ (64 + q) ≤ decay_component
quotient_small q x h =
    div-le_of_le-mul (2 ^ (64 + q)) {n = decay_component} (omega (arith, divisor_le q))

-- What is added to the base reward, without the test and the cast.
decay_early : (q r : ℕ) → q < 64 → decay q r ≡ decay_component * interp r / 2 ^ (64 + q)
unfolding decay
decay_early q r h = rw (gt→leb 128 (64 + q) (omega arith)) (
    mod-eq_of_lt
      (omega (arith, quotient_small q (decay_component * interp r) (omega (arith, interp_le r)))))

decay_late : (q r : ℕ) → 64 ≤ q → decay q r ≡ 0
unfolding decay
decay_late q r h = rw (le→leb 128 (64 + q) (omega arith))

decay_le : (q r : ℕ) → decay q r ≤ decay_component
decay_le q r = elim (Bool-cases (ltb q 64)) [
  | inl early ↦
      rw (decay_early q r (ltb→lt q 64 early))
        (quotient_small q (decay_component * interp r) (omega (arith, interp_le r)))
  | inr late ↦ rw (decay_late q r (ltb→ge q 64 late)) (omega arith)
]

decay_step : (q r : ℕ) → decay q (suc r) ≤ decay q r
decay_step q r = elim (Bool-cases (ltb q 64)) [
  | inl early ↦
      rw (decay_early q (suc r) (ltb→lt q 64 early), decay_early q r (ltb→lt q 64 early))
        (div_mono _ _ (2 ^ (64 + q)) (omega (arith, divisor_le q)) (omega (arith, interp_step r)))
  | inr late ↦ rw (decay_late q (suc r) (ltb→ge q 64 late)) (omega arith)
]

halved :
    (q : ℕ) → decay_component * 2 ^ 64 / 2 ^ (64 + suc q) ≡ decay_component * 2 ^ 63 / 2 ^ (64 + q)
halved q =
    let e : 64 + suc q ≡ suc (64 + q) = omega arith in
    let d : 2 ^ suc (64 + q) ≡ 2 * 2 ^ (64 + q) = omega (arith, pow-suc 2 (64 + q)) in
    rw (e, d) (mul-div-mul_left {m = 2} (decay_component * 2 ^ 63) (2 ^ (64 + q)) (omega arith))

interp_first : interp 0 ≤ 2 ^ 64
interp_first = interp_le 0

interp_end : 2 ^ 63 ≤ interp 6307199
interp_end = omega (arith, interp_bounds 6307199, lut_last)

decay_wrap : (q : ℕ) → decay (suc q) 0 ≤ decay q 6307199
decay_wrap q = elim (Bool-cases (ltb (suc q) 64)) [
  | inl early ↦
      let small = ltb→lt (suc q) 64 early in
      rw (decay_early (suc q) 0 small, decay_early q 6307199 (omega arith))
        (le_trans
          (div_mono _ (decay_component * 2 ^ 64) (2 ^ (64 + suc q))
            (omega (arith, divisor_le (suc q))) (omega (arith, interp_first)))
          (rw (halved q) (
            div_mono _ _ (2 ^ (64 + q)) (omega (arith, divisor_le q)) (omega (arith, interp_end)))))
  | inr late ↦ rw (decay_late (suc q) 0 (ltb→ge (suc q) 64 late)) (omega arith)
]

-- At every height the reward is at least the base reward and at most the base reward and the whole
-- decay component; so the addition of the source never overflows.
pub block_reward_bounds :
    (height : ℕ)
    → (base_reward ≤ block_reward height) × (block_reward height ≤ base_reward + decay_component)
unfolding block_reward
block_reward_bounds height = ground (arith, decay_le (height / half_life) (height % half_life))

-- The test `q >= 128` of the source makes no difference to the sum.
block_reward_sum :
    (height : ℕ)
    → block_reward height ≡ base_reward + decay (height / half_life) (height % half_life)
unfolding block_reward
block_reward_sum height = ground (arith, decay_late (height / half_life) (height % half_life))

-- The reward never rises from a block to the next, across buckets and half lives.
pub block_reward_antitone : (height : ℕ) → block_reward (suc height) ≤ block_reward height
block_reward_antitone height =
    rw (block_reward_sum (suc height), block_reward_sum height)
      (elim (Bool-cases (ltb (height % half_life) 6307199)) [
        | inl inside ↦
            let q : suc height / half_life ≡ height / half_life =
              omega (arith, ltb→lt (height % half_life) 6307199 inside) in
            let r : suc height % half_life ≡ suc (height % half_life) =
              omega (arith, ltb→lt (height % half_life) 6307199 inside) in
            rw (q, r) (omega (arith, decay_step (height / half_life) (height % half_life)))
        | inr last ↦
            let q : suc height / half_life ≡ suc (height / half_life) =
              omega (arith, ltb→ge (height % half_life) 6307199 last) in
            let r : suc height % half_life ≡ 0 =
              omega (arith, ltb→ge (height % half_life) 6307199 last) in
            let e : height % half_life ≡ 6307199 =
              omega (arith, ltb→ge (height % half_life) 6307199 last) in
            rw (q, r, e) (omega (arith, decay_wrap (height / half_life)))
      ])
