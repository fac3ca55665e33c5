-- ===== src/Consensus/Reward/Table.antt =====
-- consensus/reward.rs: the table falls from 2^64 and stays above 2^63; so does its interpolation.
use exfer.Common.{
  ℕ, zero, suc, ◌+◌, ◌-◌, ◌*◌, ◌/◌, ◌%◌, ◌^◌, ◌≤◌, ◌<◌, ◌≡◌, refl, ap, arith, ltb, Bool-cases, inl,
  inr, ltb→lt, ltb→ge,
}
use native.Mathlib.Nat.{le_trans}
use exfer.Consensus.Reward.{lut, lut_k, interp}

lut_step : (i : ℕ) → lut (suc i) ≤ lut i
unfolding lut
lut_step i = omega arith

pub lut_antitone : (i j : ℕ) → i ≤ j → lut j ≤ lut i
lut_antitone zero zero h = omega arith
lut_antitone (suc i) zero h = absurd (omega arith)
lut_antitone i (suc j) h = elim (Bool-cases (ltb i (suc j))) [
  | inl less ↦ le_trans (lut_step j) (lut_antitone i j (omega (arith, ltb→lt i (suc j) less)))
  | inr same ↦ omega (arith, ap lut (the_same i j h (ltb→ge i (suc j) same)))
]
  where
    the_same : (i j : ℕ) → i ≤ suc j → suc j ≤ i → i ≡ suc j
    the_same i j h k = omega arith

-- The pinned last entry.
pub lut_last : lut 4096 ≡ 9_223_758_693_993_446_757
unfolding lut
lut_last = refl

pub lut_first : lut 0 ≡ 2 ^ 64
unfolding lut
lut_first = refl

-- No product of the table's recurrence passes the u128 of the source.
pub lut_fits : (i : ℕ) → lut i * lut_k < 2 ^ 128
lut_fits i = omega (arith, lut_antitone 0 i (omega arith), lut_first)

share_le : (diff frac : ℕ) → frac ≤ 1540 → diff * frac / 1540 ≤ diff
share_le diff frac h = let e : diff * frac ≤ diff * 1540 = grind arith in omega arith

share_mono : (diff frac : ℕ) → diff * frac / 1540 ≤ diff * (frac + 1) / 1540
share_mono diff frac = omega arith

-- The interpolated value lies between the two entries around it.
pub interp_bounds : (r : ℕ) → (lut (r / 1540 + 1) ≤ interp r) × (interp r ≤ lut (r / 1540))
unfolding interp
interp_bounds r =
    let diff = lut (r / 1540) - lut (r / 1540 + 1) in
    omega (
      arith,
      share_le diff (r % 1540) (omega arith),
      lut_antitone (r / 1540) (r / 1540 + 1) (omega arith),
    )

-- The interpolation falls from one block to the next.
pub interp_step : (r : ℕ) → interp (suc r) ≤ interp r
interp_step r = elim (Bool-cases (ltb (r % 1540) 1539)) [
  | inl inside ↦
      let b : suc r / 1540 ≡ r / 1540 = omega (arith, ltb→lt (r % 1540) 1539 inside) in
      let f : suc r % 1540 ≡ r % 1540 + 1 = omega (arith, ltb→lt (r % 1540) 1539 inside) in
      unfold interp in
      rw (b, f) (omega (arith, share_mono (lut (r / 1540) - lut (r / 1540 + 1)) (r % 1540)))
  | inr last ↦
      let b : suc r / 1540 ≡ r / 1540 + 1 = omega (arith, ltb→ge (r % 1540) 1539 last) in
      let upper = rw b at ((interp_bounds (suc r)).1) in le_trans upper (interp_bounds r).0
]
