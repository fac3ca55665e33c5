-- ===== src/Script/Types.antt =====
-- script/types.rs: the types of script values.
use exfer.Common.{ℕ, ◌≡◌, refl, arith, Bool, true, false, ◌&&◌, ◌==◌, u64_max}

-- `Type`
pub data Ty : Type 0 where
  unit_type : Ty
  sum : Ty → Ty → Ty
  product : Ty → Ty → Ty
  list_type : Ty → Ty
  bound : ℕ → Ty
  u256_type : Ty

abbrev pub option : Ty → Ty
option inner = sum unit_type inner

abbrev pub bool_type : Ty
bool_type = sum unit_type unit_type

abbrev pub bytes_type : Ty
bytes_type = list_type (bound 256)

abbrev pub hash256_type : Ty
hash256_type = bound 0

abbrev pub u64_type : Ty
u64_type = bound u64_max

-- The derived `==`.
unfoldable pub ty_eq : Ty → Ty → Bool
ty_eq unit_type unit_type = true
ty_eq (sum a b) (sum c d) = ty_eq a c && ty_eq b d
ty_eq (product a b) (product c d) = ty_eq a c && ty_eq b d
ty_eq (list_type a) (list_type b) = ty_eq a b
ty_eq (bound k) (bound l) = k == l
ty_eq u256_type u256_type = true
ty_eq _ _ = false

pub ty_eq_refl : (t : Ty) → ty_eq t t ≡ true
unfolding ty_eq
ty_eq_refl unit_type = refl
ty_eq_refl (sum a b) = rw (ty_eq_refl a, ty_eq_refl b) refl
ty_eq_refl (product a b) = rw (ty_eq_refl a, ty_eq_refl b) refl
ty_eq_refl (list_type a) = ty_eq_refl a
ty_eq_refl (bound k) = ground arith
ty_eq_refl u256_type = refl

pub ty_eq→eq : (t u : Ty) → ty_eq t u ≡ true → t ≡ u
unfolding ty_eq
ty_eq→eq unit_type unit_type h = refl
ty_eq→eq (sum a b) (sum c d) h = ground (arith, ty_eq→eq a c, ty_eq→eq b d)
ty_eq→eq (product a b) (product c d) h = ground (arith, ty_eq→eq a c, ty_eq→eq b d)
ty_eq→eq (list_type a) (list_type b) h = ground (arith, ty_eq→eq a b)
ty_eq→eq (bound k) (bound l) h = ground arith
ty_eq→eq u256_type u256_type h = refl
ty_eq→eq _ _ h = cc
