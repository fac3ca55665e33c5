-- ===== src/Consensus/Digits.antt =====
-- Numbers as lists of digits, the most significant first: the byte arrays and the limb arrays of
-- consensus/difficulty.rs and script/jets/arithmetic.rs.
use exfer.Common.{
  Bool-cases, inl, inr, ltb→lt, ltb→ge, ◌∙◌, ltb, if◌then◌else◌, Bool, true, false, ◌↔◌, ℕ, zero,
  suc, ◌+◌, ◌-◌, ◌*◌, ◌/◌, ◌%◌, ◌^◌, ◌≤◌, ◌<◌, ◌≡◌, refl, ap, arith, List, [], ◌∷◌, ◌++◌, length,
  length-append, All, replicate,
}
use native.Mathlib.Nat.{pow-suc, div-add-mod, pow-zero}

-- The number that the digits `xs` to the base `base` stand for.
unfoldable pub value : ℕ → List ℕ → ℕ
value base [] = 0
value base (x ∷ xs) = x * base ^ length xs + value base xs

abbrev pub AllBelow : ℕ → List ℕ → Type 0
AllBelow base xs = All (λ x. x < base) xs

pub value-lt : (base : ℕ) (xs : List ℕ) → AllBelow base xs → value base xs < base ^ length xs
unfolding value
value-lt base [] h = rw pow-zero (omega arith)
value-lt base (x ∷ xs) (hx, hs) =
    let p = base ^ length xs in grind (arith, value-lt base xs hs, pow-suc base (length xs))

pub value-replicate_zero : (base n : ℕ) → value base (replicate n 0) ≡ 0
unfolding value
value-replicate_zero base zero = refl
value-replicate_zero base (suc n) = omega (arith, value-replicate_zero base n)

pub pow-add : (base m n : ℕ) → base ^ (m + n) ≡ base ^ m * base ^ n
pow-add base zero n = let e : zero + n ≡ n = omega arith in rw (e, pow-zero) (omega arith)
pow-add base (suc m) n =
    let e : suc m + n ≡ suc (m + n) = omega arith in
    rw (e, pow-suc, pow-add base m n, pow-suc) (omega arith)

pub value-append :
    (base : ℕ) (xs ys : List ℕ)
    → value base (xs ++ ys) ≡ value base xs * base ^ length ys + value base ys
unfolding value
value-append base [] ys = omega arith
value-append base (x ∷ xs) ys =
    let e : base ^ length (xs ++ ys) ≡ base ^ length xs * base ^ length ys =
      ap (λ (n : ℕ). base ^ n) (length-append xs ys) ∙ pow-add base (length xs) (length ys) in
    omega (arith, value-append base xs ys, ap (λ (t : ℕ). x * t) e)

-- `for i in (0..n).rev()` with a carry: the digits of the sum, and the carry out of the first one.
unfoldable pub add_digits : ℕ → List ℕ → List ℕ → List ℕ × ℕ
add_digits base [] ys = ([], 0)
add_digits base (x ∷ xs) [] = ([], 0)
add_digits base (x ∷ xs) (y ∷ ys) =
    let (rest, carry) = add_digits base xs ys in
    let sum = x + y + carry in (sum % base ∷ rest, sum / base)

-- The same loop with a borrow, for a difference.
unfoldable pub sub_digits : ℕ → List ℕ → List ℕ → List ℕ × ℕ
sub_digits base [] ys = ([], 0)
sub_digits base (x ∷ xs) [] = ([], 0)
sub_digits base (x ∷ xs) (y ∷ ys) =
    let (rest, borrow) = sub_digits base xs ys in
    if ltb x (y + borrow)
    then ((x + base - (y + borrow)) ∷ rest, 1)
    else ((x - (y + borrow)) ∷ rest, 0)

-- `for i in 0..n`: the first digit that differs decides.
unfoldable pub ge_digits : List ℕ → List ℕ → Bool
ge_digits [] ys = true
ge_digits (x ∷ xs) [] = true
ge_digits (x ∷ xs) (y ∷ ys) =
    let rest = ge_digits xs ys in if ltb y x then true else if ltb x y then false else rest

pub length-add_digits :
    (base : ℕ) (xs ys : List ℕ)
    → length xs ≡ length ys
    → length (add_digits base xs ys).0 ≡ length xs
unfolding add_digits
length-add_digits base [] ys e = refl
length-add_digits base (x ∷ xs) [] e = absurd (omega arith)
length-add_digits base (x ∷ xs) (y ∷ ys) e =
    omega (arith, length-add_digits base xs ys (omega arith))

pub add_digits_value :
    (base : ℕ) (xs ys : List ℕ)
    → length xs ≡ length ys
    → value base (add_digits base xs ys).0 + (add_digits base xs ys).1 * base ^ length xs
      ≡ value base xs + value base ys
unfolding add_digits value
add_digits_value base [] [] e = omega arith
add_digits_value base [] (y ∷ ys) e = absurd (omega arith)
add_digits_value base (x ∷ xs) [] e = absurd (omega arith)
add_digits_value base (x ∷ xs) (y ∷ ys) e =
    let e' : length xs ≡ length ys = omega arith in
    let sum = x + y + (add_digits base xs ys).1 in
    rw (length-add_digits base xs ys e', ← e')
      (omega (
        arith,
        add_digits_value base xs ys e',
        ap (λ (t : ℕ). t * base ^ length xs) (div-add-mod sum base),
        ap (λ (t : ℕ). sum / base * t) (pow-suc base (length xs)),
      ))

pub AllBelow-add_digits :
    (base : ℕ) (xs ys : List ℕ) → 0 < base → AllBelow base (add_digits base xs ys).0
unfolding add_digits
AllBelow-add_digits base [] ys h = tt
AllBelow-add_digits base (x ∷ xs) [] h = tt
AllBelow-add_digits base (x ∷ xs) (y ∷ ys) h = (omega arith, AllBelow-add_digits base xs ys h)

pub lex_lt : (x y p a b : ℕ) → y < x → b < p → y * p + b < x * p + a
lex_lt x y p a b h hb = let d : suc y * p ≤ x * p = grind arith in omega arith

pub ge_digits_iff :
    (base : ℕ) (xs ys : List ℕ)
    → length xs ≡ length ys
    → AllBelow base xs
    → AllBelow base ys
    → (ge_digits xs ys ≡ true) ↔ (value base ys ≤ value base xs)
unfolding ge_digits value
ge_digits_iff base [] [] e hx hy = (λ _. omega arith, λ _. refl)
ge_digits_iff base [] (y ∷ ys) e hx hy = absurd (omega arith)
ge_digits_iff base (x ∷ xs) [] e hx hy = absurd (omega arith)
ge_digits_iff base (x ∷ xs) (y ∷ ys) e hx hy =
    let e' : length xs ≡ length ys = omega arith in
    let p = base ^ length xs in
    rw (← e') (
      ground (
        arith,
        ge_digits_iff base xs ys e' hx.1 hy.1,
        lex_lt x y p (value base xs) (value base ys),
        lex_lt y x p (value base ys) (value base xs),
        value-lt base xs hx.1,
        rw (← e') at (value-lt base ys hy.1),
      ))

pub length-sub_digits :
    (base : ℕ) (xs ys : List ℕ)
    → length xs ≡ length ys
    → length (sub_digits base xs ys).0 ≡ length xs
unfolding sub_digits
length-sub_digits base [] ys e = refl
length-sub_digits base (x ∷ xs) [] e = absurd (omega arith)
length-sub_digits base (x ∷ xs) (y ∷ ys) e =
    ground (arith, length-sub_digits base xs ys (omega arith))

borrow_bit : (base : ℕ) (xs ys : List ℕ) → (sub_digits base xs ys).1 ≤ 1
unfolding sub_digits
borrow_bit base [] ys = omega arith
borrow_bit base (x ∷ xs) [] = omega arith
borrow_bit base (x ∷ xs) (y ∷ ys) = ground arith

pub sub_digits_value :
    (base : ℕ) (xs ys : List ℕ)
    → length xs ≡ length ys
    → AllBelow base ys
    → value base (sub_digits base xs ys).0 + value base ys
      ≡ value base xs + (sub_digits base xs ys).1 * base ^ length xs
unfolding sub_digits value
sub_digits_value base [] [] e h = omega arith
sub_digits_value base [] (y ∷ ys) e h = absurd (omega arith)
sub_digits_value base (x ∷ xs) [] e h = absurd (omega arith)
sub_digits_value base (x ∷ xs) (y ∷ ys) e h =
    let e' : length xs ≡ length ys = omega arith in
    let p = base ^ length xs in
    let b = (sub_digits base xs ys).1 in
    let len = length-sub_digits base xs ys e' in
    let ih = sub_digits_value base xs ys e' h.1 in
    elim (Bool-cases (ltb x (y + b))) [
      | inl less ↦
          let d : x + base - (y + b) + (y + b) ≡ x + base =
            omega (arith, borrow_bit base xs ys, ltb→lt x (y + b) less, h.0) in
          rw (less, len, ← e')
            (omega (arith, ih, ap (λ (t : ℕ). t * p) d, pow-suc base (length xs)))
      | inr more ↦
          let d : x - (y + b) + (y + b) ≡ x = omega (arith, ltb→ge x (y + b) more) in
          rw (more, len, ← e') (omega (arith, ih, ap (λ (t : ℕ). t * p) d))
    ]
