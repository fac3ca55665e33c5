-- ===== src/Common/Results.antt =====
-- Rust's `Result` with `?`, and `Option` with `?`, as do blocks.
use mathlib.Core.Path.{◌≡◌, refl}
use mathlib.Core.Bool.{Bool, true, false}
use mathlib.Core.Logic.{◌⊎◌, inl, inr}
use mathlib.Core.Option.{Option, none, some}

pub data Result {ℓ} (A E : Type ℓ) : Type ℓ where
  ok : A → Result A E
  err : E → Result A E

-- `if bad { return Err(e) }`
abbrev pub reject {ℓ} : {E : Type ℓ} → Bool → E → Result (Unit {ℓ}) E
reject false e = ok tt
reject true e = err e

-- The `?` of the source: an error ends the block.
infixl 5 ◌>>=◌ ◌>>◌
abbrev pub ◌>>=◌ {ℓ} : {A B E : Type ℓ} → Result A E → (A → Result B E) → Result B E
err e >>= next = err e
ok a >>= next = next a

abbrev pub ◌>>◌ {ℓ} : {B E : Type ℓ} → Result (Unit {ℓ}) E → Result B E → Result B E
first >> second = first >>= λ done. second

-- `o.ok_or(e)?`
abbrev pub ok_or {ℓ} : {A E : Type ℓ} → Option A → E → Result A E
ok_or none e = err e
ok_or (some a) e = ok a

-- `r.ok()`
abbrev pub to_option {ℓ} : {A E : Type ℓ} → Result A E → Option A
to_option (ok a) = some a
to_option (err e) = none

-- `o?` in a function that returns an `Option`.
abbrev pub and_then {ℓ} : {A B : Type ℓ} → Option A → (A → Option B) → Option B
and_then none f = none
and_then (some a) f = f a

pub >>=-eq-ok {ℓ} :
    {A B E : Type ℓ} (m : Result A E) (next : A → Result B E) {b : B}
    → (m >>= next) ≡ ok b
    → (a : A) × (m ≡ ok a) × (next a ≡ ok b)
>>=-eq-ok (err e) next h = cc
>>=-eq-ok (ok a) next h = (a, refl, h)

pub Result-cases {ℓ} :
    {A E : Type ℓ} (r : Result A E) → ((a : A) × (r ≡ ok a)) ⊎ ((e : E) × (r ≡ err e))
Result-cases (ok a) = inl (a, refl)
Result-cases (err e) = inr (e, refl)

pub and_then-eq-some {ℓ} :
    {A B : Type ℓ} (m : Option A) (f : A → Option B) {b : B}
    → and_then m f ≡ some b
    → (a : A) × (m ≡ some a) × (f a ≡ some b)
and_then-eq-some (some a) f h = (a, refl, h)
and_then-eq-some none f h = cc
