-- ===== src/Common/Exec.antt =====
-- Methods that take `&mut self` and may return an error: what was written before the error stays,
-- so the state comes back beside the error too.
use exfer.Common.Results.{Result, ok, err}
use mathlib.Core.Path.{◌≡◌, refl}

abbrev pub Exec {ℓ} : Type ℓ → Type ℓ → Type ℓ → Type ℓ
Exec S A E = S → Result A E × S

abbrev pub run_after {ℓ} : {S A B E : Type ℓ} → Result A E × S → (A → Exec S B E) → Result B E × S
run_after (ok a, s) f = f a s
run_after (err e, s) f = (err e, s)

infixl 5 ◌>>=◌ ◌>>◌
abbrev pub ◌>>=◌ {ℓ} : {S A B E : Type ℓ} → Exec S A E → (A → Exec S B E) → Exec S B E
◌>>=◌ m f s = run_after (m s) f

abbrev pub ◌>>◌ {ℓ} : {S B E : Type ℓ} → Exec S (Unit {ℓ}) E → Exec S B E → Exec S B E
m >> k = m >>= λ _. k

abbrev pub pure {ℓ} : {S A E : Type ℓ} → A → Exec S A E
pure a s = (ok a, s)

abbrev pub fail {ℓ} : {S A E : Type ℓ} → E → Exec S A E
fail e s = (err e, s)

pub run_after-eq-ok {ℓ} :
    {S A B E : Type ℓ} (r : Result A E × S) (f : A → Exec S B E) {b : B} {t : S}
    → run_after r f ≡ (ok b, t)
    → (a : A) × (s : S) × (r ≡ (ok a, s)) × (f a s ≡ (ok b, t))
run_after-eq-ok (ok a, s) f h = (a, s, refl, h)
run_after-eq-ok (err e, s) f h = cc

pub ok_injective {ℓ} :
    {S A E : Type ℓ} (a b : A) (s t : S) → pure {E = E} a s ≡ (ok b, t) → (a ≡ b) × (s ≡ t)
ok_injective a b s t h = (cc, cc)
