-- ===== src/Chain/Smt/Bits.antt =====
-- chain/smt.rs: the bits of a key, and that 32 bytes are determined by their 256 bits.
use exfer.Common.{
  ℕ, zero, suc, ◌+◌, ◌-◌, ◌*◌, ◌/◌, ◌%◌, ◌^◌, ◌<◌, ◌≡◌, refl, arith, [], ◌∷◌, Bytes, IsByte, length,
  get_or, All, ◌==◌, if◌then◌else◌,
}
use exfer.Types.Hash.{Hash256}

-- A key is 32 bytes.
abbrev pub IsKey : Hash256 → Type 0
IsKey k = (length k ≡ 32) × All IsByte k

abbrev pub smt_depth : ℕ
smt_depth = 256

-- `(key[byte_idx] >> bit_idx) & 1`
abbrev pub bit_of : ℕ → ℕ → ℕ
bit_of byte n = byte / 2 ^ n % 2

unfoldable pub get_bit : Hash256 → ℕ → ℕ
get_bit key bit_index = bit_of (get_or key (bit_index / 8) 0) (7 - bit_index % 8)

-- The loop of `first_different_bit` over n further positions from d.
unfoldable pub first_different_from : Hash256 → Hash256 → ℕ → ℕ → ℕ
first_different_from a b d zero = d
first_different_from a b d (suc n) =
    if get_bit a d == get_bit b d then first_different_from a b (suc d) n else d

unfoldable pub first_different_bit : Hash256 → Hash256 → ℕ → ℕ
first_different_bit a b from = first_different_from a b from (smt_depth - from)

-- Two keys agree on the bits below n.
abbrev pub Agree : Hash256 → Hash256 → ℕ → Type 0
Agree a b n = (i : ℕ) → i < n → get_bit a i ≡ get_bit b i

pub bit-bound : (k : Hash256) (d : ℕ) → get_bit k d < 2
unfolding get_bit
bit-bound k d = omega arith

halves-eq : (a b : ℕ) → a % 2 ≡ b % 2 → a / 2 ≡ b / 2 → a ≡ b
halves-eq a b p q = omega arith

byte_of_bits :
    (a b : ℕ)
    → IsByte a
    → IsByte b
    → ((i : ℕ) → i < 8 → bit_of a (7 - i) ≡ bit_of b (7 - i))
    → a ≡ b
byte_of_bits a b ha hb same = omega (
  arith,
  same 0 (omega arith),
  same 1 (omega arith),
  same 2 (omega arith),
  same 3 (omega arith),
  same 4 (omega arith),
  same 5 (omega arith),
  same 6 (omega arith),
  same 7 (omega arith),
)

bytes_of_bits :
    (n : ℕ) (xs ys : Bytes)
    → length xs ≡ n
    → length ys ≡ n
    → All IsByte xs
    → All IsByte ys
    → ((j i : ℕ) → j < n → i < 8 → bit_of (get_or xs j 0) (7 - i) ≡ bit_of (get_or ys j 0) (7 - i))
    → xs ≡ ys
bytes_of_bits n [] [] hx hy bx by' same = refl
bytes_of_bits n [] (y ∷ ys) hx hy bx by' same = absurd (omega arith)
bytes_of_bits n (x ∷ xs) [] hx hy bx by' same = absurd (omega arith)
bytes_of_bits zero (x ∷ xs) (y ∷ ys) hx hy bx by' same = absurd (omega arith)
bytes_of_bits (suc n) (x ∷ xs) (y ∷ ys) hx hy bx by' same =
    let here = byte_of_bits x y bx.0 by'.0 (λ i l. same 0 i (omega arith) l) in
    let rest =
      bytes_of_bits n xs ys (omega arith) (omega arith) bx.1 by'.1
        (λ j i l m. same (suc j) i (omega arith) m) in
    cc

-- Keys with the same 256 bits are equal.
pub key_of_bits : (a b : Hash256) → IsKey a → IsKey b → Agree a b smt_depth → a ≡ b
unfolding get_bit
key_of_bits a b ha hb same = bytes_of_bits 32 a b ha.0 hb.0 ha.1 hb.1 (λ j i l m.
    let e1 : (8 * j + i) / 8 ≡ j = omega arith in
    let e2 : (8 * j + i) % 8 ≡ i = omega arith in rw (e1, e2) at (same (8 * j + i) (omega arith)))
