-- ===== src/Script/Value/RoundTrip.antt =====
-- script/value.rs: reading back what `serialize` wrote.
use exfer.Common.{
  ℕ, zero, suc, ◌+◌, ◌≤◌, ◌≡◌, refl, ◌∙◌, ap, arith, max, true, false, ltb, le→ltb, ◌++◌,
  append_assoc, Bytes, length, length-append, take, drop, take-append_length, drop-append_length,
  to_le, from_le, from_le-to_le, IsU32, IsU64, Result, ok,
}
use mathlib.Core.Path.{subst}
use native.Mathlib.Nat.{add-zero}
use exfer.Script.Value.Defs.{
  Value, Values, unit, left, right, pair, list, raw, u64, u256, boolean, hash, nil, cons, count,
  serialize, serialize_all,
}
use exfer.Script.Value.Decode.{
  ValueError, end_of_u256, end_of_hash, Reader, max_value_depth, max_list_length, read_values,
  read_inner, read_pair, read_list, read_raw, read_u64, read_32, read_bool, read_tagged, read_value,
  deserialize,
}

-- The numbers and lengths that the encoding has room for.
-- The levels of nesting.
unfoldable mutual
  pub depth : Value → ℕ
  depth (left v) = suc (depth v)
  depth (right v) = suc (depth v)
  depth (pair a b) = suc (max (depth a) (depth b))
  depth (list vs) = suc (depth_all vs)
  depth v = 0

  pub depth_all : Values → ℕ
  depth_all nil = 0
  depth_all (cons v vs) = max (depth v) (depth_all vs)

-- The numbers and lengths that the encoding and its reader have room for.
abbrev mutual
  pub Fits : Value → Type 0
  Fits (left v) = Fits v
  Fits (right v) = Fits v
  Fits (pair a b) = Fits a × Fits b
  Fits (list vs) = (count vs ≤ max_list_length) × AllFit vs
  Fits (raw bs) = IsU32 (length bs)
  Fits (u64 n) = IsU64 n
  Fits (u256 bs) = length bs ≡ 32
  Fits (hash h) = length h ≡ 32
  Fits v = Unit

  pub AllFit : Values → Type 0
  AllFit nil = Unit
  AllFit (cons v vs) = Fits v × AllFit vs

take-word : (k : ℕ) (w rest : Bytes) → length w ≡ k → take k (w ++ rest) ≡ w
take-word k w rest h = subst (λ (m : ℕ). take m (w ++ rest) ≡ w) h (take-append_length w rest)

drop-word : (k : ℕ) (w rest : Bytes) → length w ≡ k → drop k (w ++ rest) ≡ rest
drop-word k w rest h = subst (λ (m : ℕ). drop m (w ++ rest) ≡ rest) h (drop-append_length w rest)

long_enough : (k : ℕ) (w rest : Bytes) → k ≤ length w → ltb (length (w ++ rest)) k ≡ false
long_enough k w rest h = rw (length-append w rest) (le→ltb (length w + length rest) k (omega arith))

read_32-back :
    (wrap : Bytes → Value) (error : ValueError) (bs rest : Bytes)
    → length bs ≡ 32
    → read_32 wrap error (bs ++ rest) ≡ ok (wrap bs, 1 + length bs)
unfolding read_32
read_32-back wrap error bs rest h =
    rw (long_enough 32 bs rest (omega arith), take-word 32 bs rest h, h) refl

read_u64-back :
    (n : ℕ) (w rest : Bytes) → length w ≡ 8 → from_le w ≡ n → read_u64 (w ++ rest) ≡ ok (u64 n, 9)
unfolding read_u64
read_u64-back n w rest h e = rw (long_enough 8 w rest (omega arith), take-word 8 w rest h, e) refl

read_raw-back :
    (w bs rest : Bytes)
    → length w ≡ 4
    → from_le w ≡ length bs
    → read_raw (w ++ (bs ++ rest)) ≡ ok (raw bs, 5 + length bs)
unfolding read_raw
read_raw-back w bs rest h e =
    let fits : ltb (length (w ++ (bs ++ rest))) (4 + length bs) ≡ false =
      rw (length-append w (bs ++ rest), length-append bs rest) (ground arith) in
    rw
      (
        long_enough 4 w (bs ++ rest) (omega arith),
        take-word 4 w (bs ++ rest) h,
        e,
        fits,
        drop-word 4 w (bs ++ rest) h,
        take-append_length bs rest,
      )
      refl

read_inner-back :
    (read : Reader) (wrap : Value → Value) (v : Value) (input : Bytes) (n : ℕ)
    → read input ≡ ok (v, n)
    → read_inner read wrap input ≡ ok (wrap v, 1 + n)
unfolding read_inner
read_inner-back read wrap v input n h = rw h refl

read_pair-back :
    (read : Reader) (a b : Value) (first second rest : Bytes)
    → read (first ++ (second ++ rest)) ≡ ok (a, length first)
    → read (second ++ rest) ≡ ok (b, length second)
    → read_pair read (first ++ (second ++ rest)) ≡ ok (pair a b, 1 + length first + length second)
unfolding read_pair
read_pair-back read a b first second rest h k =
    rw (h, drop-append_length first (second ++ rest), k) refl

read_list-back :
    (read : Reader) (vs : Values) (w body : Bytes) (n : ℕ)
    → length w ≡ 4
    → from_le w ≡ count vs
    → count vs ≤ max_list_length
    → read_values read (count vs) (w ++ body) (length w) ≡ ok (vs, n)
    → read_list read (w ++ body) ≡ ok (list vs, 1 + n)
unfolding read_list
read_list-back read vs w body n h e fits k =
    let k' = rw h at k in
    rw
      (
        long_enough 4 w body (omega arith),
        take-word 4 w body h,
        e,
        le→ltb max_list_length (count vs) fits,
        k',
      )
      refl

consumed :
    (r : Result (Value × ℕ) ValueError) (v : Value) (n m : ℕ)
    → r ≡ ok (v, n)
    → n ≡ m
    → r ≡ ok (v, m)
consumed r v n m h e = h ∙ ap (λ (k : ℕ). ok (v, k)) e

mutual
  unfolding serialize depth read_value read_tagged read_values read_bool

  pub read_value-serialize :
      (n : ℕ) (v : Value) (rest : Bytes)
      → depth v ≤ n
      → Fits v
      → read_value (suc n) (serialize v ++ rest) ≡ ok (v, length (serialize v))
  read_value-serialize n unit rest d f = refl
  read_value-serialize zero (left v) rest d f = absurd (omega arith)
  read_value-serialize (suc n) (left v) rest d f =
      consumed _ (left v) _ _
        (read_inner-back (read_value (suc n)) left v (serialize v ++ rest) _
          (read_value-serialize n v rest (omega arith) f))
        (omega arith)
  read_value-serialize zero (right v) rest d f = absurd (omega arith)
  read_value-serialize (suc n) (right v) rest d f =
      consumed _ (right v) _ _
        (read_inner-back (read_value (suc n)) right v (serialize v ++ rest) _
          (read_value-serialize n v rest (omega arith) f))
        (omega arith)
  read_value-serialize zero (pair a b) rest d f = absurd (omega arith)
  read_value-serialize (suc n) (pair a b) rest d f =
      let back =
        read_pair-back (read_value (suc n)) a b (serialize a) (serialize b) rest
          (read_value-serialize n a (serialize b ++ rest) (omega arith) f.0)
          (read_value-serialize n b rest (omega arith) f.1) in
      rw (append_assoc (serialize a) (serialize b) rest, length-append (serialize a) (serialize b))
        (consumed _ (pair a b) _ _ back (omega arith))
  read_value-serialize zero (list vs) rest d f = absurd (omega arith)
  read_value-serialize (suc n) (list vs) rest d f =
      let w = to_le 4 (count vs) in
      let all = read_values-serialize n vs w rest (omega arith) f.1 in
      let back =
        read_list-back (read_value (suc n)) vs w (serialize_all vs ++ rest) _ refl
          (from_le-to_le 4 (count vs) (omega (arith, f.0))) f.0 all in
      consumed _ (list vs) _ _ back (omega arith)
  read_value-serialize n (raw bs) rest d f =
      consumed _ (raw bs) _ _
        (read_raw-back (to_le 4 (length bs)) bs rest refl
          (from_le-to_le 4 (length bs) (omega (arith, f))))
        (omega arith)
  read_value-serialize n (u64 k) rest d f =
      read_u64-back k (to_le 8 k) rest refl (from_le-to_le 8 k (omega (arith, f)))
  read_value-serialize n (u256 bs) rest d f =
      consumed _ (u256 bs) _ _ (read_32-back u256 end_of_u256 bs rest f) (omega arith)
  read_value-serialize n (boolean true) rest d f = refl
  read_value-serialize n (boolean false) rest d f = refl
  read_value-serialize n (hash h) rest d f =
      consumed _ (hash h) _ _ (read_32-back hash end_of_hash h rest f) (omega arith)

  read_values-serialize :
      (n : ℕ) (vs : Values) (pre rest : Bytes)
      → depth_all vs ≤ n
      → AllFit vs
      → read_values (read_value (suc n)) (count vs) (pre ++ (serialize_all vs ++ rest)) (length pre)
        ≡ ok (vs, length pre + length (serialize_all vs))
  read_values-serialize n nil pre rest d f = rw add-zero refl
  read_values-serialize n (cons v vs) pre rest d f =
      let here = read_value-serialize n v (serialize_all vs ++ rest) (omega arith) f.0 in
      let later = read_values-serialize n vs (pre ++ serialize v) rest (omega arith) f.1 in
      let later' =
        rw
          (
            append_assoc pre (serialize v) (serialize_all vs ++ rest),
            length-append pre (serialize v),
          )
          at later in
      rw
        (
          append_assoc (serialize v) (serialize_all vs) rest,
          drop-append_length pre (serialize v ++ (serialize_all vs ++ rest)),
          here,
          later',
          length-append (serialize v) (serialize_all vs),
        )
        (ap (λ (k : ℕ). ok (cons v vs, k)) (omega arith))

-- A value that the encoding has room for, nested no deeper than the reader allows, is read back by
-- `deserialize` with the number of its bytes, whatever follows.
pub deserialize-serialize_value :
    (v : Value) (rest : Bytes)
    → depth v ≤ max_value_depth
    → Fits v
    → deserialize (serialize v ++ rest) ≡ ok (v, length (serialize v))
unfolding deserialize
deserialize-serialize_value v rest d f = read_value-serialize max_value_depth v rest d f
