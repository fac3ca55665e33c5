-- ===== src/Chain/Smt/Prefix.antt =====
-- chain/smt.rs: what the loops over the bits of two keys find.
use exfer.Common.{
  ℕ, zero, suc, ◌+◌, ◌≤◌, ◌<◌, ◌≡◌, ◌≢◌, refl, arith, ◌==◌, ==_iff, Bool-cases, inl, inr, true,
  false, if◌then◌else◌,
}
use exfer.Types.Hash.{Hash256}
use exfer.Chain.Smt.Bits.{get_bit, first_different_from}
use exfer.Chain.Smt.Node.{matches_prefix}

-- The n bits from d are the same in both keys.
abbrev pub AgreeFrom : Hash256 → Hash256 → ℕ → ℕ → Type 0
AgreeFrom a b d n = (i : ℕ) → d ≤ i → i < d + n → get_bit a i ≡ get_bit b i

pub matches_ext :
    (j p q : Hash256) (d n : ℕ)
    → AgreeFrom p q d n
    → matches_prefix j p d n ≡ matches_prefix j q d n
unfolding matches_prefix
matches_ext j p q d zero same = refl
matches_ext j p q d (suc n) same =
    let rest = matches_ext j p q (suc d) n (λ i l m. same i (omega arith) (omega arith)) in
    rw (same d (omega arith) (omega arith), rest) refl

pub matches_self : (j p : Hash256) (d n : ℕ) → AgreeFrom j p d n → matches_prefix j p d n ≡ true
unfolding matches_prefix
matches_self j p d zero same = refl
matches_self j p d (suc n) same = ground (
  arith,
  matches_self j p (suc d) n (λ i l m. same i (omega arith) (omega arith)),
  same d (omega arith) (omega arith),
)

pub matches_agree : (j p : Hash256) (d n : ℕ) → matches_prefix j p d n ≡ true → AgreeFrom j p d n
unfolding matches_prefix
matches_agree j p d zero h i l m = absurd (omega arith)
matches_agree j p d (suc n) h i l m =
    let below = matches_agree j p (suc d) n in ground (arith, below, below (ground arith) i)

-- The test of a + 1 + b bits at the bit e = d + a.
pub matches_split :
    (j p : Hash256) (d e a b n : ℕ)
    → d + a ≡ e
    → n ≡ a + suc b
    → matches_prefix j p d n ≡ (
        if matches_prefix j p d a
        then (if get_bit j e == get_bit p e then matches_prefix j p (suc e) b else false)
        else false)
unfolding matches_prefix
matches_split j p d e zero b n h k =
    let k' : n ≡ suc b = omega arith in let h' : d ≡ e = omega arith in rw (k', h') refl
matches_split j p d e (suc a) b n h k =
    let k' : n ≡ suc (a + suc b) = omega arith in
    let rest = matches_split j p (suc d) e a b (a + suc b) (omega arith) refl in
    rw (k') (ground (arith, rest))

-- Where the loop of `first_different_bit` stops.
pub record StopsAt (a b : Hash256) (d n e : ℕ) : Type 0 where
  pub low : d ≤ e
  pub high : e ≤ d + n
  pub agree : (i : ℕ) → d ≤ i → i < e → get_bit a i ≡ get_bit b i
  pub differ : e < d + n → get_bit a e ≢ get_bit b e

StopsAt-suc :
    (a b : Hash256) (d n e : ℕ)
    → get_bit a d ≡ get_bit b d
    → StopsAt a b (suc d) n e
    → StopsAt a b d (suc n) e
StopsAt-suc a b d n e same s = record {
  low = omega (arith, s.low);
  high = omega (arith, s.high);
  agree = λ i l m. elim (Bool-cases (i == d)) [
    | inl q ↦ rw ((==_iff i d).0 q) same
    | inr q ↦ s.agree i (ground arith) m
  ];
  differ = λ l. s.differ (omega arith);
}

pub first_different_from-StopsAt :
    (a b : Hash256) (d n : ℕ) → StopsAt a b d n (first_different_from a b d n)
unfolding first_different_from
first_different_from-StopsAt a b d zero = record {
  low = omega arith;
  high = omega arith;
  agree = λ i l m. absurd (omega arith);
  differ = λ l. absurd (omega arith);
}
first_different_from-StopsAt a b d (suc n) = elim (Bool-cases (get_bit a d == get_bit b d)) [
  | inl e ↦
      rw e (StopsAt-suc a b d n _ ((==_iff _ _).0 e) (first_different_from-StopsAt a b (suc d) n))
  | inr e ↦ rw e (record {
    low = omega arith;
    high = omega arith;
    agree = λ i l m. absurd (omega arith);
    differ = λ l. ground arith;
  })
]
