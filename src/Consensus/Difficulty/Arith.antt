-- ===== src/Consensus/Difficulty/Arith.antt =====
-- consensus/difficulty.rs: 256-bit arithmetic on 32 big-endian bytes.
use Prim.Native.Nat.{bit_or}
use exfer.Common.{
  ◌≡◌, length, ℕ, zero, suc, ◌+◌, ◌-◌, ◌*◌, ◌/◌, ◌%◌, ◌^◌, Bool, List, [], ◌∷◌, ◌++◌, Bytes,
  replicate, set, get_or, take, drop, ltb, if◌then◌else◌, bytes_eq, from_be, to_be, Option, none,
  some,
}
use exfer.Consensus.Digits.{add_digits, sub_digits, ge_digits, AllBelow, value}

-- `[0u8; 32]` and `[0xFF; 32]`
abbrev pub zeros : Bytes
zeros = replicate 32 0

abbrev pub ones : Bytes
ones = replicate 32 255

-- 32 bytes, and the number that they stand for.
pub record IsU256 (v : Bytes) : Type 0 where
  pub size : length v ≡ 32
  pub digits : AllBelow 256 v

abbrev pub number : Bytes → ℕ
number = value 256

-- `add_work`: the sum, or the largest value where it does not fit.
unfoldable pub add_work : Bytes → Bytes → Bytes
add_work a b = let (result, carry) = add_digits 256 a b in if ltb 0 carry then ones else result

unfoldable pub ge_256 : Bytes → Bytes → Bool
ge_256 a b = ge_digits a b

unfoldable pub sub_256_inplace : Bytes → Bytes → Bytes
sub_256_inplace a b = (sub_digits 256 a b).0

-- One pass `for i in (0..32).rev()` of shifts by one, with the carry into the last byte.
unfoldable pub shift_left_from : ℕ → Bytes → Bytes × ℕ
shift_left_from carry [] = ([], carry)
shift_left_from carry (x ∷ xs) =
    let (rest, into) = shift_left_from carry xs in (bit_or (x * 2 % 256) into ∷ rest, x / 128)

-- `v[i] |= mask`
unfoldable pub or_at : Bytes → ℕ → ℕ → Bytes
or_at v i mask = set v i (bit_or (get_or v i 0) mask)

-- `(a[bit_pos / 8] >> (7 - bit_pos % 8)) & 1`
unfoldable pub bit_at : Bytes → ℕ → ℕ
bit_at a bit_pos = get_or a (bit_pos / 8) 0 / 2 ^ (7 - bit_pos % 8) % 2

-- The remainder of `div_256` with the next bit of the dividend brought in.
unfoldable pub bring_in : Bytes → Bytes → ℕ → Bytes
bring_in a remainder bit_pos = or_at (shift_left_from 0 remainder).0 31 (bit_at a bit_pos)

-- The rounds of `for bit_pos in 0..256` that are left, with the remainder and the quotient.
unfoldable pub div_loop : Bytes → Bytes → ℕ → ℕ → Bytes → Bytes → Bytes × Bytes
div_loop a b zero bit_pos remainder quotient = (remainder, quotient)
div_loop a b (suc rounds) bit_pos remainder quotient =
    let r = bring_in a remainder bit_pos in
    let fits = ge_256 r b in
    div_loop a b rounds (bit_pos + 1) (if fits then sub_256_inplace r b else r)
      (if fits then or_at quotient (bit_pos / 8) (2 ^ (7 - bit_pos % 8)) else quotient)

unfoldable pub div_256 : Bytes → Bytes → Bytes
div_256 a b = (div_loop a b 256 0 zeros zeros).1

-- `quotient + 1`: the pass with a carry of one into the last byte.
unfoldable pub increment : Bytes → Bytes × ℕ
increment [] = ([], 1)
increment (x ∷ xs) =
    let (rest, carry) = increment xs in ((x + carry) % 256 ∷ rest, (x + carry) / 256)

-- `work_from_target`: floor(2^256 / target), saturating. The first pass computes 2^256 - target as
-- the difference from zero with its borrow dropped.
unfoldable pub work_from_target : Bytes → Bytes
work_from_target target =
    if bytes_eq target zeros
    then ones
    else let numerator = (sub_digits 256 zeros target).0 in
      let (result, carry) = increment (div_256 numerator target) in
      if ltb 0 carry then ones else result

-- The four u64 limbs of 32 big-endian bytes.
unfoldable pub limbs : Bytes → List ℕ
limbs v =
    from_be (take 8 v)
    ∷ from_be (take 8 (drop 8 v))
    ∷ from_be (take 8 (drop 16 v))
    ∷ from_be (take 8 (drop 24 v))
    ∷ []

-- `for i in (0..4).rev()`: the low 64 bits of each product, and the carry out.
unfoldable pub mul_limbs : ℕ → List ℕ → List ℕ × ℕ
mul_limbs num [] = ([], 0)
mul_limbs num (x ∷ xs) =
    let (rest, carry) = mul_limbs num xs in
    let val = x * num + carry in (val % 2 ^ 64 ∷ rest, val / 2 ^ 64)

-- The rounds of the division from limb 1 on; `none` where a quotient does not fit a u64. The shift
-- and `|` of the source are a product and a sum, for every limb is below 2 ^ 64.
unfoldable pub div_limbs : ℕ → ℕ → List ℕ → Option (List ℕ)
div_limbs den remainder [] = some []
div_limbs den remainder (x ∷ xs) =
    let cur = remainder * 2 ^ 64 + x in
    let rest = div_limbs den (cur % den) xs in
    if ltb (2 ^ 64 - 1) (cur / den)
    then none
    else elim rest [ none ↦ none | some qs ↦ some (cur / den ∷ qs) ]

unfoldable pub limbs_to_bytes : List ℕ → Bytes
limbs_to_bytes [] = []
limbs_to_bytes (x ∷ xs) = to_be 8 x ++ limbs_to_bytes xs

-- `mul_div_256`: value * numerator / denominator, or all ones where it does not fit 256 bits.
unfoldable pub mul_div_256 : Bytes → ℕ → ℕ → Bytes
mul_div_256 v numerator denominator =
    let (product, carry) = mul_limbs numerator (limbs v) in
    if ltb 0 (carry / denominator)
    then ones
    else elim (div_limbs denominator (carry % denominator) product) [
      | none ↦ ones
      | some result ↦ limbs_to_bytes result
    ]
