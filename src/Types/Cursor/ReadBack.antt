-- ===== src/Types/Cursor/ReadBack.antt =====
-- A reader that gives `x` for the bytes `bs`, wherever they stand and whatever follows.
use exfer.Common.{
  ℕ, ◌+◌, ◌≤◌, ◌<◌, ◌^◌, ◌≡◌, refl, ap, ◌∙◌, arith, List, [], ◌∷◌, ◌++◌, append_assoc, append-nil,
  Bytes, length, length-append, take, take-append_length, drop-append_length, get_or, to_le,
  length-to_le, from_le-to_le, Result, ok, All, le→ltb, gt→leb,
}
use native.Mathlib.Nat.{add_assoc, add-zero}
use mathlib.Core.Path.{subst}
use exfer.Types.Cursor.Defs.{
  SerError, Cursor, ◌>>=◌, ◌>>◌, pure, need, slice, word, byte, sub_slice, repeat,
}

pub record Reads {A : Type 0} (m : Cursor A) (x : A) (bs : Bytes) : Type 0 where
  pub at :
      (pre rest : Bytes) → m (pre ++ (bs ++ rest)) (length pre) ≡ ok (x, length pre + length bs)

-- The same of a function that reads a slice from its beginning.
pub record ReadsSlice {A : Type 0} (f : Bytes → Result (A × ℕ) SerError) (x : A) (bs : Bytes)
    : Type 0 where
  pub at : (rest : Bytes) → f (bs ++ rest) ≡ ok (x, length bs)

module _ {A B : Type 0} where
  pub Reads-bind :
      (m : Cursor A) (f : A → Cursor B) (x : A) (y : B) (bs cs : Bytes)
      → Reads m x bs
      → Reads (f x) y cs
      → Reads (m >>= f) y (bs ++ cs)
  Reads-bind m f x y bs cs h k = record {
    at = λ pre rest.
        let later =
          rw (append_assoc pre bs (cs ++ rest), length-append pre bs) at (k.at (pre ++ bs) rest) in
        rw (append_assoc bs cs rest, h.at pre (cs ++ rest), length-append bs cs)
          (later ∙ ap (λ (n : ℕ). ok (y, n)) (add_assoc (length pre) (length bs) (length cs)));
  }

module _ {A : Type 0} where
  pub Reads-pure : (x : A) → Reads (pure x) x []
  Reads-pure x = record { at = λ pre rest. rw add-zero }

  -- A reader that ends with `pure`.
  pub Reads-bind_pure :
      {B : Type 0} (m : Cursor B) (f : B → A) (x : B) (bs : Bytes)
      → Reads m x bs
      → Reads (m >>= λ y. pure (f y)) (f x) bs
  Reads-bind_pure m f x bs h = record { at = λ pre rest. rw (h.at pre rest) }

  -- A last step that reads nothing.
  pub Reads-bind_end :
      {B : Type 0} (m : Cursor B) (f : B → Cursor A) (x : B) (y : A) (bs : Bytes)
      → Reads m x bs
      → Reads (f x) y []
      → Reads (m >>= f) y bs
  Reads-bind_end m f x y bs h k = rw append-nil at (Reads-bind m f x y bs [] h k)

  pub Reads-need :
      (n : ℕ) (m : Cursor A) (x : A) (bs : Bytes)
      → n ≤ length bs
      → Reads m x bs
      → Reads (need n >> m) x bs
  unfolding need
  Reads-need n m x bs fits h = record {
    at = λ pre rest.
        rw (length-append pre (bs ++ rest), length-append bs rest)
          (rw (le→ltb (length pre + (length bs + length rest)) (length pre + n) (omega arith))
            (h.at pre rest));
  }

  pub Reads-sub_slice :
      (f : Bytes → Result (A × ℕ) SerError) (x : A) (bs : Bytes)
      → ReadsSlice f x bs
      → Reads (sub_slice f) x bs
  unfolding sub_slice
  Reads-sub_slice f x bs h = record {
    at = λ pre rest. rw (drop-append_length pre (bs ++ rest), h.at rest);
  }

  pub ReadsSlice-run :
      (m : Cursor A) (x : A) (bs : Bytes) → Reads m x bs → ReadsSlice (λ bytes. m bytes 0) x bs
  ReadsSlice-run m x bs h = record {
    at = λ rest. h.at [] rest ∙ ap (λ (n : ℕ). ok (x, n)) (omega arith);
  }

pub Reads-slice : (n : ℕ) (bs : Bytes) → length bs ≡ n → Reads (slice n) bs bs
unfolding slice
Reads-slice n bs e = record {
  at = λ pre rest. rw (drop-append_length pre (bs ++ rest), ← e, take-append_length bs rest);
}

pub Reads-word : (n v : ℕ) → v < 256 ^ n → Reads (word n) v (to_le n v)
unfolding word
Reads-word n v h = record {
  at = λ pre rest.
      let eq : take n (to_le n v ++ rest) ≡ to_le n v =
        subst (λ (k : ℕ). take k (to_le n v ++ rest) ≡ to_le n v) (length-to_le n v)
          (take-append_length (to_le n v) rest) in
      rw (drop-append_length pre (to_le n v ++ rest), eq, from_le-to_le n v h, length-to_le n v);
}

get_or-append_length :
    (pre : Bytes) (b d : ℕ) (rest : Bytes) → get_or (pre ++ (b ∷ rest)) (length pre) d ≡ b
get_or-append_length [] b d rest = refl
get_or-append_length (x ∷ pre) b d rest = get_or-append_length pre b d rest

pub Reads-byte : (b : ℕ) → Reads byte b (b ∷ [])
unfolding byte
Reads-byte b = record {
  at = λ pre rest. rw (
    gt→leb (length (pre ++ (b ∷ rest))) (length pre)
        (rw (length-append pre (b ∷ rest)) (omega arith)),
    get_or-append_length pre b 0 rest,
  );
}

module _ {A : Type 0} (item : Cursor A) (encode : A → Bytes) where
  abbrev pub concat : List A → Bytes
  concat [] = []
  concat (x ∷ xs) = encode x ++ concat xs

  pub Reads-repeat :
      (xs : List A)
      → All (λ x. Reads item x (encode x)) xs
      → Reads (repeat item (length xs)) xs (concat xs)
  unfolding repeat
  Reads-repeat [] h = Reads-pure []
  Reads-repeat (x ∷ xs) (hx, hs) =
      Reads-bind item _ x (x ∷ xs) (encode x) (concat xs) hx (
        Reads-bind_pure (repeat item (length xs)) (λ ys. x ∷ ys) xs (concat xs)
          (Reads-repeat xs hs))
