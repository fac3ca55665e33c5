-- ===== src/Common/Words.antt =====
-- Rust's machine integers as native numbers: ranges, checked and saturating operations, and the
-- byte orders of `to_le_bytes` and `to_be_bytes`. A byte string is a list of numbers.
use Prim.Native.Nat.{ℕ, zero, suc, ◌+◌, ◌-◌, ◌*◌, ◌/◌, ◌%◌, ◌^◌, ◌<◌}
use mathlib.Core.Path.{◌≡◌, refl, ap}
use mathlib.Core.List.{List, [], ◌∷◌, ◌++◌}
use mathlib.Core.Option.{Option, none, some}
use native.Mathlib.Omega.{arith}
use native.Mathlib.Nat.{pow-suc}
use mathlib.Core.Bool.{Bool, true, false, ◌&&◌}
use mathlib.Core.Logic.{◌↔◌}
use Prim.Native.Char.{code}
use Prim.Native.String.{String}
use exfer.Common.Tests.{ltb, leb, ◌==◌, if◌then◌else◌}
use exfer.Common.Lists.{length, All}

abbrev pub Bytes : Type 0
Bytes = List ℕ

abbrev pub IsByte : ℕ → Type 0
IsByte b = b < 256

abbrev pub IsU16 : ℕ → Type 0
IsU16 n = n < 2 ^ 16

abbrev pub IsU32 : ℕ → Type 0
IsU32 n = n < 2 ^ 32

abbrev pub IsU64 : ℕ → Type 0
IsU64 n = n < 2 ^ 64

abbrev pub u64_max : ℕ
u64_max = 2 ^ 64 - 1

-- `u64::checked_add`, `checked_sub` and `checked_mul`.
abbrev pub checked_add_u64 : ℕ → ℕ → Option ℕ
checked_add_u64 a b = if ltb (a + b) (2 ^ 64) then some (a + b) else none

abbrev pub checked_sub_u64 : ℕ → ℕ → Option ℕ
checked_sub_u64 a b = if leb b a then some (a - b) else none

abbrev pub checked_mul_u64 : ℕ → ℕ → Option ℕ
checked_mul_u64 a b = if ltb (a * b) (2 ^ 64) then some (a * b) else none

-- `u64::saturating_add` and `saturating_mul`; `saturating_sub` is the subtraction of ℕ.
abbrev pub saturating_add_u64 : ℕ → ℕ → ℕ
saturating_add_u64 a b = if ltb (a + b) (2 ^ 64) then a + b else u64_max

abbrev pub saturating_mul_u64 : ℕ → ℕ → ℕ
saturating_mul_u64 a b = if ltb (a * b) (2 ^ 64) then a * b else u64_max

-- `u128::checked_sub` and `saturating_add`.
abbrev pub checked_sub_u128 : ℕ → ℕ → Option ℕ
checked_sub_u128 = checked_sub_u64

abbrev pub saturating_add_u128 : ℕ → ℕ → ℕ
saturating_add_u128 a b = if ltb (a + b) (2 ^ 128) then a + b else 2 ^ 128 - 1

-- `a.div_ceil(b)`
abbrev pub div_ceil : ℕ → ℕ → ℕ
div_ceil a b = if ltb 0 (a % b) then a / b + 1 else a / b

-- `to_le_bytes` of a word of k bytes, and `from_le_bytes`.
abbrev pub to_le : ℕ → ℕ → Bytes
to_le zero v = []
to_le (suc k) v = v % 256 ∷ to_le k (v / 256)

abbrev pub from_le : Bytes → ℕ
from_le [] = 0
from_le (b ∷ bs) = b + 256 * from_le bs

-- `from_be_bytes`, with what was read so far, and `to_be_bytes`.
abbrev pub from_be_onto : ℕ → Bytes → ℕ
from_be_onto acc [] = acc
from_be_onto acc (b ∷ bs) = from_be_onto (acc * 256 + b) bs

abbrev pub from_be : Bytes → ℕ
from_be = from_be_onto 0

abbrev pub to_be : ℕ → ℕ → Bytes
to_be zero v = []
to_be (suc k) v = to_be k (v / 256) ++ v % 256 ∷ []

pub length-to_le : (k v : ℕ) → length (to_le k v) ≡ k
length-to_le zero v = refl
length-to_le (suc k) v = ap suc (length-to_le k (v / 256))

pub from_le-to_le : (k v : ℕ) → v < 256 ^ k → from_le (to_le k v) ≡ v
from_le-to_le zero v h = omega arith
from_le-to_le (suc k) v h = omega (arith, from_le-to_le k (v / 256) (omega arith))

pub from_le-lt : (bs : Bytes) → All IsByte bs → from_le bs < 256 ^ length bs
from_le-lt [] h = omega arith
from_le-lt (b ∷ bs) h = omega (arith, from_le-lt bs h.1, pow-suc 256 (length bs))

pub to_le-from_le : (bs : Bytes) → All IsByte bs → to_le (length bs) (from_le bs) ≡ bs
to_le-from_le [] h = refl
to_le-from_le (b ∷ bs) (hb, hs) =
    let low : (b + 256 * from_le bs) % 256 ≡ b = omega arith in
    let high : (b + 256 * from_le bs) / 256 ≡ from_le bs = omega arith in
    rw (low, high) (rw (to_le-from_le bs hs))

-- `==` on byte strings.
unfoldable pub bytes_eq : Bytes → Bytes → Bool
bytes_eq [] [] = true
bytes_eq [] (y ∷ ys) = false
bytes_eq (x ∷ xs) [] = false
bytes_eq (x ∷ xs) (y ∷ ys) = x == y && bytes_eq xs ys

bytes_eq→eq : (xs ys : Bytes) → bytes_eq xs ys ≡ true → xs ≡ ys
unfolding bytes_eq
bytes_eq→eq [] [] h = refl
bytes_eq→eq [] (y ∷ ys) h = cc
bytes_eq→eq (x ∷ xs) [] h = cc
bytes_eq→eq (x ∷ xs) (y ∷ ys) h = ground (arith, bytes_eq→eq xs ys)

pub bytes_eq_refl : (xs : Bytes) → bytes_eq xs xs ≡ true
unfolding bytes_eq
bytes_eq_refl [] = refl
bytes_eq_refl (x ∷ xs) = ground (arith, bytes_eq_refl xs)

pub bytes_eq_iff : (xs ys : Bytes) → (bytes_eq xs ys ≡ true) ↔ (xs ≡ ys)
bytes_eq_iff xs ys = (bytes_eq→eq xs ys, λ e. rw (← e) (bytes_eq_refl xs))

-- A byte string literal `b"…"`.
abbrev pub byte_string : String → Bytes
byte_string String.[] = []
byte_string (String.◌∷◌ c s) = code c ∷ byte_string s
