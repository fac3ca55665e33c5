-- ===== src/Consensus/Validation/Spent.antt =====
-- consensus/validation.rs: which entries of the log of a block belong to which transaction.
use exfer.Common.{
  ◌∙◌, append_assoc, ◌≡◌, ◌≢◌, refl, sym, ap, arith, true, false, List, [], ◌∷◌, ◌++◌, map, All,
}
use mathlib.Core.Path.{subst}
use exfer.Types.Transaction.{TxInput, OutPoint, Transaction}
use exfer.Consensus.Validation.Header.{spent_by}
use exfer.Chain.State.Defs.{UtxoEntry, outpoint_eq_iff, outpoint_key}
use exfer.Chain.State.Apply.{spent_outpoint}
use exfer.Common.Map.{beq_ne}
use exfer.Consensus.Validation.Distinct.{IsDistinct}
use exfer.Consensus.Validation.Undo.{spends_outpoint, spent_entries}

module _ {A : Type 0} where
  pub All-append : (P : A → Type 0) (xs ys : List A) → All P (xs ++ ys) → All P xs × All P ys
  All-append P [] ys h = (tt, h)
  All-append P (x ∷ xs) ys h = let (left, right) = All-append P xs ys h.1 in ((h.0, left), right)

  pub append-All : (P : A → Type 0) (xs ys : List A) → All P xs → All P ys → All P (xs ++ ys)
  append-All P [] ys h k = k
  append-All P (x ∷ xs) ys h k = (h.0, append-All P xs ys h.1 k)

  pub All-imply : (P Q : A → Type 0) (xs : List A) → ((x : A) → P x → Q x) → All P xs → All Q xs
  All-imply P Q [] f h = tt
  All-imply P Q (x ∷ xs) f h = (f x h.0, All-imply P Q xs f h.1)

  -- No element of the one list is in the other.
  abbrev pub Apart : List A → List A → Type 0
  Apart xs ys = All (λ x. All (λ y. y ≢ x) ys) xs

  pub Apart-sym : (xs ys : List A) → Apart xs ys → Apart ys xs
  Apart-sym xs [] h = tt
  Apart-sym xs (y ∷ ys) h = (
    All-imply (λ x. All (λ z. z ≢ x) (y ∷ ys)) (λ x. x ≢ y) xs (λ x k e. k.0 (sym e)) h,
    Apart-sym xs ys
        (All-imply (λ x. All (λ z. z ≢ x) (y ∷ ys)) (λ x. All (λ z. z ≢ x) ys) xs (λ x k. k.1) h),
  )

pub IsDistinct-append :
    {A : Type 0} (xs ys : List A) → IsDistinct (xs ++ ys) → Apart xs ys × IsDistinct ys
IsDistinct-append [] ys h = (tt, h)
IsDistinct-append (x ∷ xs) ys h =
    let (apart, rest) = IsDistinct-append xs ys h.1 in
    let (own, others) = All-append (λ y. x ≢ y) xs ys h.0 in
    ((All-imply (λ y. x ≢ y) (λ y. y ≢ x) ys (λ y k e. k (sym e)) others, apart), rest)

spends_none :
    (is : List TxInput) (op : OutPoint)
    → All (λ x. x ≢ op) (map spent_outpoint is)
    → spends_outpoint is op ≡ false
unfolding spends_outpoint
spends_none [] op h = refl
spends_none (i ∷ is) op h = ground (arith, beq_ne (spent_outpoint i) op h.0, spends_none is op h.1)

-- The outpoints of other transactions are passed over,
pub spent_entries_none :
    (is : List TxInput) (ps : List (OutPoint × UtxoEntry))
    → Apart (map (λ p. p.0) ps) (map spent_outpoint is)
    → spent_entries is ps ≡ []
unfolding spent_entries
spent_entries_none is [] h = refl
spent_entries_none is (p ∷ ps) h = rw (spends_none is p.0 h.0) (spent_entries_none is ps h.1)

pub spent_entries-append :
    (is : List TxInput) (ps qs : List (OutPoint × UtxoEntry))
    → spent_entries is (ps ++ qs) ≡ spent_entries is ps ++ spent_entries is qs
unfolding spent_entries
spent_entries-append is [] qs = refl
spent_entries-append is (p ∷ ps) qs = ground (arith, spent_entries-append is ps qs)

all_spent : (is : List TxInput) → All (λ op. spends_outpoint is op ≡ true) (map spent_outpoint is)
unfolding spends_outpoint
all_spent [] = tt
all_spent (i ∷ is) = (
  ground (arith, (outpoint_eq_iff (spent_outpoint i) (spent_outpoint i)).1 refl),
  All-imply (λ op. spends_outpoint is op ≡ true) (λ op. spends_outpoint (i ∷ is) op ≡ true)
      (map spent_outpoint is) (λ op h. ground (arith, h)) (all_spent is),
)

kept :
    (is : List TxInput) (ps : List (OutPoint × UtxoEntry))
    → All (λ op. spends_outpoint is op ≡ true) (map (λ p. p.0) ps)
    → spent_entries is ps ≡ ps
unfolding spent_entries
kept is [] h = refl
kept is (p ∷ ps) h = rw (h.0) (ap (λ rest. p ∷ rest) (kept is ps h.1))

-- and its own are kept.
pub spent_entries_own :
    (is : List TxInput) (ps : List (OutPoint × UtxoEntry))
    → map (λ p. p.0) ps ≡ map spent_outpoint is
    → spent_entries is ps ≡ ps
spent_entries_own is ps same =
    kept is ps (subst (λ ks. All (λ op. spends_outpoint is op ≡ true) ks) (sym same) (all_spent is))

pub append-IsDistinct : {A : Type 0} (xs ys : List A) → IsDistinct (xs ++ ys) → IsDistinct xs
append-IsDistinct [] ys h = tt
append-IsDistinct (x ∷ xs) ys h =
    ((All-append (λ y. x ≢ y) xs ys h.0).0, append-IsDistinct xs ys h.1)

pub spent_by-append : (xs ys : List Transaction) → spent_by (xs ++ ys) ≡ spent_by xs ++ spent_by ys
unfolding spent_by
spent_by-append [] ys = refl
spent_by-append (x ∷ xs) ys =
    ap (λ l. map spent_outpoint x.inputs ++ l) (spent_by-append xs ys)
    ∙ sym (append_assoc (map spent_outpoint x.inputs) (spent_by xs) (spent_by ys))
