-- ===== src/Script/Value/Defs.antt =====
-- script/value.rs: values, their inferred types, the match of a value against a type, and the
-- encoding.
use exfer.Common.{
  ℕ, suc, Bool, true, false, ◌&&◌, ◌||◌, ◌==◌, ltb, if◌then◌else◌, Option, none, some, [], ◌∷◌,
  ◌++◌, Bytes, length, to_le, u64_max,
}
use exfer.Types.Hash.{Hash256}
use exfer.Script.Types.{
  Ty, unit_type, sum, product, list_type, bound, u256_type, bool_type, bytes_type, hash256_type,
  u64_type, ty_eq,
}

mutual
  pub data Value : Type 0 where
    unit : Value
    left : Value → Value
    right : Value → Value
    pair : Value → Value → Value
    list : Values → Value
    raw : Bytes → Value
    u64 : ℕ → Value
    u256 : Bytes → Value
    boolean : Bool → Value
    hash : Hash256 → Value

  -- `Vec<Value>`
  pub data Values : Type 0 where
    nil : Values
    cons : Value → Values → Values

-- `none` and `some` of the source.
abbrev pub none_value : Value
none_value = left unit

abbrev pub some_value : Value → Value
some_value v = right v

abbrev pub count : Values → ℕ
count nil = 0
count (cons v vs) = suc (count vs)

unfoldable pub infer_type : Value → Ty
infer_type unit = unit_type
infer_type (left v) = sum (infer_type v) unit_type
infer_type (right v) = sum unit_type (infer_type v)
infer_type (pair a b) = product (infer_type a) (infer_type b)
infer_type (list nil) = list_type unit_type
infer_type (list (cons v vs)) = list_type (infer_type v)
infer_type (raw bs) = bytes_type
infer_type (u64 n) = u64_type
infer_type (u256 data') = u256_type
infer_type (boolean b) = bool_type
infer_type (hash h) = hash256_type

unfoldable pub as_bool : Value → Option Bool
as_bool (boolean b) = some b
as_bool (left unit) = some false
as_bool (right unit) = some true
as_bool v = none

unfoldable pub as_u256 : Value → Option Bytes
as_u256 (u256 data') = some data'
as_u256 v = none

-- The value tests of the aliases.
abbrev pub is_bool_value : Value → Bool
is_bool_value (boolean b) = true
is_bool_value (left unit) = true
is_bool_value (right unit) = true
is_bool_value v = false

abbrev pub is_raw : Value → Bool
is_raw (raw bs) = true
is_raw v = false

abbrev pub is_hash : Value → Bool
is_hash (hash h) = true
is_hash v = false

abbrev pub is_u256 : Value → Bool
is_u256 (u256 data') = true
is_u256 v = false

-- The aliases come before the structure.
abbrev pub aliased : Value → Ty → Bool → Bool
aliased v ty structure =
    if ty_eq ty bool_type
    then is_bool_value v
    else if ty_eq ty bytes_type
    then is_raw v
    else if ty_eq ty hash256_type
    then is_hash v
    else if ty_eq ty u256_type
    then is_u256 v
    else structure

unfoldable mutual
  pub matches_type : Value → Ty → Bool
  matches_type unit unit_type = aliased unit unit_type true
  matches_type (u64 n) (bound k) = aliased (u64 n) (bound k) (k == u64_max || ltb n k)
  matches_type (left a) (sum ta tb) = aliased (left a) (sum ta tb) (matches_type a ta)
  matches_type (right b) (sum ta tb) = aliased (right b) (sum ta tb) (matches_type b tb)
  matches_type (pair a b) (product ta tb) =
      aliased (pair a b) (product ta tb) (matches_type a ta && matches_type b tb)
  matches_type (list vs) (list_type t) = aliased (list vs) (list_type t) (all_match vs t)
  matches_type v ty = aliased v ty false

  pub all_match : Values → Ty → Bool
  all_match nil t = true
  all_match (cons v vs) t = matches_type v t && all_match vs t

-- The loop over `vs[1..]`.
unfoldable pub same_type : Ty → Values → Bool
same_type expected nil = true
same_type expected (cons v vs) = ty_eq (infer_type v) expected && same_type expected vs

unfoldable mutual
  pub lists_are_homogeneous : Value → Bool
  lists_are_homogeneous (list vs) = first_decides vs && all_homogeneous vs
  lists_are_homogeneous (left v) = lists_are_homogeneous v
  lists_are_homogeneous (right v) = lists_are_homogeneous v
  lists_are_homogeneous (pair a b) = lists_are_homogeneous a && lists_are_homogeneous b
  lists_are_homogeneous v = true

  pub all_homogeneous : Values → Bool
  all_homogeneous nil = true
  all_homogeneous (cons v vs) = lists_are_homogeneous v && all_homogeneous vs

  pub first_decides : Values → Bool
  first_decides nil = true
  first_decides (cons v vs) = same_type (infer_type v) vs

unfoldable mutual
  pub serialize : Value → Bytes
  serialize unit = 0 ∷ []
  serialize (left v) = 1 ∷ serialize v
  serialize (right v) = 2 ∷ serialize v
  serialize (pair a b) = 3 ∷ (serialize a ++ serialize b)
  serialize (list vs) = 4 ∷ (to_le 4 (count vs) ++ serialize_all vs)
  serialize (raw bs) = 5 ∷ (to_le 4 (length bs) ++ bs)
  serialize (u64 n) = 6 ∷ to_le 8 n
  serialize (u256 data') = 7 ∷ data'
  serialize (boolean b) = 8 ∷ (if b then 1 else 0) ∷ []
  serialize (hash h) = 9 ∷ h

  pub serialize_all : Values → Bytes
  serialize_all nil = []
  serialize_all (cons v vs) = serialize v ++ serialize_all vs

unfoldable mutual
  pub structural_skeleton : Value → Bytes
  structural_skeleton unit = 0 ∷ []
  structural_skeleton (left v) = 1 ∷ structural_skeleton v
  structural_skeleton (right v) = 2 ∷ structural_skeleton v
  structural_skeleton (pair a b) = 3 ∷ (structural_skeleton a ++ structural_skeleton b)
  structural_skeleton (list vs) = 4 ∷ (to_le 4 (count vs) ++ skeletons vs)
  structural_skeleton (raw bs) = 5 ∷ []
  structural_skeleton (u64 n) = 6 ∷ []
  structural_skeleton (u256 data') = 7 ∷ []
  structural_skeleton (boolean b) = 8 ∷ []
  structural_skeleton (hash h) = 9 ∷ []

  pub skeletons : Values → Bytes
  skeletons nil = []
  skeletons (cons v vs) = structural_skeleton v ++ skeletons vs
