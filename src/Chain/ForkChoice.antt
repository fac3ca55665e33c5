-- ===== src/Chain/ForkChoice.antt =====
-- chain/fork_choice.rs: which of two chain tips is preferred.
use Prim.Native.Nat.{Ordering, compare}
use exfer.Common.{
  ℕ, ◌^◌, ◌≡◌, refl, arith, Bool, true, false, ◌&&◌, ◌||◌, [], ◌∷◌, Bytes, length, ltb, ◌==◌,
}
use exfer.Types.Hash.{Hash256}
use exfer.Consensus.Digits.{value, AllBelow, value-lt, lex_lt}
use exfer.Consensus.Difficulty.{IsU256, number, work_from_target, add_work}

pub record ChainTip : Type 0 where
  pub block_id : Hash256
  pub height : ℕ
  pub cumulative_work : Bytes

-- `ChainTip::new` and `ChainTip::genesis`
unfoldable pub new : Hash256 → ℕ → Bytes → Bytes → ChainTip
new block_id height difficulty_target parent_work = record {
  block_id = block_id;
  height = height;
  cumulative_work = add_work parent_work (work_from_target difficulty_target);
}

unfoldable pub genesis : Hash256 → Bytes → ChainTip
genesis block_id difficulty_target = record {
  block_id = block_id;
  height = 0;
  cumulative_work = work_from_target difficulty_target;
}

-- `cmp` of byte arrays: the first byte that differs decides.
unfoldable pub cmp_bytes : Bytes → Bytes → Ordering
cmp_bytes [] ys = Ordering.eq
cmp_bytes (x ∷ xs) [] = Ordering.eq
cmp_bytes (x ∷ xs) (y ∷ ys) =
    let rest = cmp_bytes xs ys in
    elim (compare x y) [
      | Ordering.lt ↦ Ordering.lt
      | Ordering.gt ↦ Ordering.gt
      | Ordering.eq ↦ rest
    ]

unfoldable pub is_better_chain : ChainTip → ChainTip → Bool
is_better_chain candidate current =
    elim (cmp_bytes candidate.cumulative_work current.cumulative_work) [
      | Ordering.gt ↦ true
      | Ordering.lt ↦ false
      | Ordering.eq ↦ elim (compare candidate.height current.height) [
        | Ordering.gt ↦ true
        | _ ↦ false
      ]
    ]

cmp_bytes-compare :
    (xs ys : Bytes)
    → length xs ≡ length ys
    → AllBelow 256 xs
    → AllBelow 256 ys
    → cmp_bytes xs ys ≡ compare (value 256 xs) (value 256 ys)
unfolding cmp_bytes value
cmp_bytes-compare [] [] e hx hy = refl
cmp_bytes-compare [] (y ∷ ys) e hx hy = absurd (omega arith)
cmp_bytes-compare (x ∷ xs) [] e hx hy = absurd (omega arith)
cmp_bytes-compare (x ∷ xs) (y ∷ ys) e hx hy =
    let e' : length xs ≡ length ys = omega arith in
    let p = 256 ^ length xs in
    rw (← e') (
      ground (
        arith,
        cmp_bytes-compare xs ys e' hx.1 hy.1,
        lex_lt x y p (value 256 xs) (value 256 ys),
        lex_lt y x p (value 256 ys) (value 256 xs),
        value-lt 256 xs hx.1,
        rw (← e') at (value-lt 256 ys hy.1),
      ))

-- The preferred tip has more work as a 256-bit number, or as much work and a greater height.
pub is_better_chain-number :
    (candidate current : ChainTip)
    → IsU256 candidate.cumulative_work
    → IsU256 current.cumulative_work
    → is_better_chain candidate current ≡ (
        ltb (number current.cumulative_work) (number candidate.cumulative_work)
        || (number candidate.cumulative_work == number current.cumulative_work
            && ltb current.height candidate.height))
unfolding is_better_chain
is_better_chain-number candidate current hc hk = ground (
  arith,
  cmp_bytes-compare candidate.cumulative_work current.cumulative_work
      (omega (arith, hc.size, hk.size)) hc.digits hk.digits,
)

abbrev pub HasWork : ChainTip → Type 0
HasWork t = IsU256 t.cumulative_work

-- Where one tip is preferred to a second and that to a third, the first is preferred to the third,
-- and neither the second nor the third to the first: no cycle of reorganisations returns to a tip.
pub is_better_chain_order :
    (a b c : ChainTip)
    → HasWork a
    → HasWork b
    → HasWork c
    → is_better_chain a b ≡ true
    → is_better_chain b c ≡ true
    → (is_better_chain a c ≡ true) × (is_better_chain b a ≡ false) × (is_better_chain c a ≡ false)
is_better_chain_order a b c ha hb hc ab bc =
    let h = rw (is_better_chain-number a b ha hb) at ab in
    let k = rw (is_better_chain-number b c hb hc) at bc in
    rw
      (
        is_better_chain-number a c ha hc,
        is_better_chain-number b a hb ha,
        is_better_chain-number c a hc ha,
      )
      (ground (arith, h, k), ground (arith, h, k), ground (arith, h, k))
