-- ===== src/Script/Value/Typing.antt =====
-- script/value.rs: a value whose lists are homogeneous matches the type inferred for it.
use exfer.Common.{ℕ, ◌≡◌, ◌≢◌, refl, ap, arith, Bool, true, false, ◌&&◌, Bool-cases, inl, inr}
use exfer.Script.Types.{Ty, unit_type, bound, ty_eq, ty_eq→eq}
use exfer.Script.Value.Defs.{
  Value, Values, unit, left, right, pair, list, raw, u64, u256, boolean, hash, nil, cons,
  infer_type, matches_type, all_match, same_type, lists_are_homogeneous, all_homogeneous,
  first_decides,
}

-- Only the unit value has the type `Unit`.
infer-unit : (v : Value) → infer_type v ≡ unit_type → v ≡ unit
unfolding infer_type
infer-unit unit h = refl
infer-unit (list nil) h = cc
infer-unit (list (cons v vs)) h = cc
infer-unit _ h = cc

abbrev bound_of : Ty → ℕ
bound_of (bound k) = k
bound_of _ = 0

-- No value is inferred to be a byte.
infer-byte : (v : Value) → infer_type v ≢ bound 256
unfolding infer_type
infer-byte (u64 n) h = absurd (omega (arith, ap bound_of h))
infer-byte (list nil) h = cc
infer-byte (list (cons v vs)) h = cc
infer-byte _ h = cc

&&-eq-true : (a b : Bool) → (a && b) ≡ true → (a ≡ true) × (b ≡ true)
&&-eq-true true true h = (refl, refl)
&&-eq-true true false h = cc
&&-eq-true false b h = cc

mutual
  unfolding matches_type lists_are_homogeneous infer_type ty_eq same_type

  matches_inferred :
      (v : Value) → lists_are_homogeneous v ≡ true → matches_type v (infer_type v) ≡ true
  matches_inferred unit h = refl
  matches_inferred (left v) h =
      let ih = matches_inferred v h in
      elim (Bool-cases (ty_eq (infer_type v) unit_type)) [
        | inl q ↦ rw (infer-unit v (ty_eq→eq (infer_type v) unit_type q)) refl
        | inr q ↦ rw (q, ih) refl
      ]
  matches_inferred (right v) h =
      let ih = matches_inferred v h in
      elim (Bool-cases (ty_eq (infer_type v) unit_type)) [
        | inl q ↦ rw (infer-unit v (ty_eq→eq (infer_type v) unit_type q)) refl
        | inr q ↦ rw (q, ih) refl
      ]
  matches_inferred (pair a b) h =
      let both = &&-eq-true (lists_are_homogeneous a) (lists_are_homogeneous b) h in
      rw (matches_inferred a both.0, matches_inferred b both.1) refl
  matches_inferred (list nil) h = refl
  matches_inferred (list (cons v vs)) h =
      let both = &&-eq-true (first_decides (cons v vs)) (all_homogeneous (cons v vs)) h in
      let inner = &&-eq-true (lists_are_homogeneous v) (all_homogeneous vs) both.1 in
      let first = matches_inferred v inner.0 in
      let others = all_match-same_type (infer_type v) vs both.0 inner.1 in
      elim (Bool-cases (ty_eq (infer_type v) (bound 256))) [
        | inl q ↦ absurd (infer-byte v (ty_eq→eq (infer_type v) (bound 256) q))
        | inr q ↦ rw (q, first, others) refl
      ]
  matches_inferred (raw bs) h = refl
  matches_inferred (u64 n) h = refl
  matches_inferred (u256 data') h = refl
  matches_inferred (boolean b) h = refl
  matches_inferred (hash x) h = refl

  all_match-same_type :
      (t : Ty) (vs : Values)
      → same_type t vs ≡ true
      → all_homogeneous vs ≡ true
      → all_match vs t ≡ true
  all_match-same_type t nil s h = refl
  all_match-same_type t (cons v vs) s h =
      let both = &&-eq-true (ty_eq (infer_type v) t) (same_type t vs) s in
      let inner = &&-eq-true (lists_are_homogeneous v) (all_homogeneous vs) h in
      let first = matches_inferred v inner.0 in
      let same = ty_eq→eq (infer_type v) t both.0 in
      rw (rw same at first, all_match-same_type t vs both.1 inner.1) refl

-- A value whose lists are homogeneous matches its inferred type.
pub matches_type-infer_type :
    (v : Value) → lists_are_homogeneous v ≡ true → matches_type v (infer_type v) ≡ true
matches_type-infer_type v h = matches_inferred v h
