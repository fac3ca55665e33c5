-- ===== src/Mempool/Steps.antt =====
-- mempool/mempool.rs: `add` against `pre_check` and `add_validated`, whose text it repeats.
use exfer.Common.{
  ℕ, zero, suc, ◌≡◌, refl, sym, ◌∙◌, ap, none, some, List, [], ◌∷◌, length, Bool-cases,
  Option-cases, Result, Result-cases, inl, inr, ok, err, Option, if◌then◌else◌,
}
use mathlib.Core.Path.{fun_ext}
use exfer.Common.Map.{Map, Set, insert, contains, bytes_key}
use exfer.Common.Exec.{Exec, run_after}
use exfer.Types.Hash.{Hash256, Sha}
use exfer.Types.Transaction.{TxInput, OutPoint, Transaction, is_coinbase, tx_id}
use exfer.Consensus.Cost.{tx_cost_with_script_cost}
use exfer.Consensus.Validation.Defs.{ValidationError}
use exfer.Consensus.Validation.Witness.{Setting}
use exfer.Consensus.Validation.Transaction.{validate_transaction}
use exfer.Chain.Smt.{Smt}
use exfer.Chain.State.Defs.{UtxoSet, outpoint_key}
use exfer.Chain.State.Apply.{spent_outpoint}
use exfer.Mempool.Defs.{
  Mempool, MempoolEntry, MempoolError, Density, density_key, double_spend, validation_failed,
  size_or, spend_all, evict_lowest,
}
use exfer.Mempool.Admit.{
  find_conflict, is_full, evict_while_full, evict_for, make_room, density_of, admit, new_entry,
  screen, pre_check, pre_check_inputs, add_validated,
}
use exfer.Mempool.Add.{
  refuse_spent, density_for, no_room, evict_to_fit, displace, fit, track, check_new, write, add,
}

refuse_spent-pre_check_inputs :
    (is : List TxInput) (spent : Set OutPoint) → refuse_spent is spent ≡ pre_check_inputs is spent
unfolding refuse_spent pre_check_inputs
refuse_spent-pre_check_inputs [] spent = refl
refuse_spent-pre_check_inputs (i ∷ is) spent = rw (refuse_spent-pre_check_inputs is spent) refl

evict_to_fit-evict_while_full :
    (rounds tx_bytes : ℕ) (p : Mempool)
    → evict_to_fit rounds tx_bytes p ≡ evict_while_full rounds tx_bytes p
unfolding evict_to_fit evict_while_full is_full
evict_to_fit-evict_while_full zero tx_bytes p = refl
evict_to_fit-evict_while_full (suc rounds) tx_bytes p =
    ap (λ next. if no_room tx_bytes p then elim p.entries [ [] ↦ p | _ ∷ _ ↦ next ] else p)
      (evict_to_fit-evict_while_full rounds tx_bytes (evict_lowest p))

displace-evict_for :
    (density tx_bytes : ℕ) (ranks : Map Density Hash256) (p : Mempool)
    → displace density tx_bytes ranks p ≡ evict_for density tx_bytes ranks p
unfolding displace evict_for
displace-evict_for density tx_bytes [] p = refl
displace-evict_for density tx_bytes (((worst, id), id') ∷ rest) p =
    rw (evict_to_fit-evict_while_full (length p.entries) tx_bytes p) refl

fit-make_room :
    (density tx_bytes : ℕ) (p : Mempool) → fit density tx_bytes p ≡ make_room density tx_bytes p
unfolding fit make_room is_full
fit-make_room density tx_bytes p = rw (displace-evict_for density tx_bytes p.by_fee_density p) refl

track-spend_all : (is : List TxInput) (spent : Set OutPoint) → track is spent ≡ spend_all is spent
unfolding track spend_all
track-spend_all [] spent = refl
track-spend_all (i ∷ is) spent = track-spend_all is (insert (spent_outpoint i) tt spent)

refused : Option OutPoint → Result (Unit {0}) MempoolError
refused none = ok tt
refused (some op) = err (double_spend op)

refuse_spent-find_conflict :
    (is : List TxInput) (spent : Set OutPoint)
    → refuse_spent is spent ≡ refused (find_conflict is spent)
unfolding refuse_spent find_conflict refused
refuse_spent-find_conflict [] spent = refl
refuse_spent-find_conflict (i ∷ is) spent = elim (Bool-cases (contains (spent_outpoint i) spent)) [
  | inl there ↦ rw there refl
  | inr free ↦ rw free (refuse_spent-find_conflict is spent)
]

write-admit :
    (e : MempoolEntry) (tx_bytes : ℕ) (p : Mempool) → write e tx_bytes p ≡ admit e tx_bytes p
unfolding write admit
write-admit e tx_bytes p = rw (track-spend_all e.tx.inputs p.spent_outpoints) refl

admitted_alike :
    (density tx_bytes : ℕ) (e : MempoolEntry) (id : Hash256) (p : Mempool)
    → run_after {E = MempoolError} (fit density tx_bytes p) (λ u q. (ok id, write e tx_bytes q))
      ≡ run_after (make_room density tx_bytes p) (λ u q. (ok id, admit e tx_bytes q))
admitted_alike density tx_bytes e id p =
    let same : write e tx_bytes ≡ admit e tx_bytes = fun_ext (write-admit e tx_bytes) in
    rw (fit-make_room density tx_bytes p, same) refl

abbrev forgotten : {A : Type 0} → Result A MempoolError → Result (Unit {0}) MempoolError
forgotten (ok a) = ok tt
forgotten (err e) = err e

module _ (sha : Sha) where
  check_new-screen : (tx : Transaction) (p : Mempool) → check_new sha tx p ≡ screen sha tx p
  unfolding check_new screen refused
  check_new-screen tx p = elim (Result-cases (tx_id sha tx)) [
    | inr (x, e) ↦ rw (check_new, screen, e) refl
    | inl (id, e) ↦ elim (Bool-cases (contains id p.entries)) [
      | inl known ↦ rw (check_new, screen, e, known) refl
      | inr unknown ↦ elim (Bool-cases (is_coinbase tx)) [
        | inl minted ↦ rw (check_new, screen, e, unknown, minted) refl
        | inr spends ↦
            let same = refuse_spent-find_conflict tx.inputs p.spent_outpoints in
            elim (Option-cases (find_conflict tx.inputs p.spent_outpoints)) [
              | inl free ↦ rw (check_new, screen, e, unknown, spends, same, free) refl
              | inr (op, clash) ↦ rw (check_new, screen, e, unknown, spends, same, clash) refl
            ]
      ]
    ]
  ]

  pre_check-check_new :
      (tx : Transaction) (p : Mempool) → pre_check sha tx p ≡ forgotten (check_new sha tx p)
  unfolding check_new pre_check
  pre_check-check_new tx p = elim (Result-cases (tx_id sha tx)) [
    | inr (x, e) ↦ rw (pre_check, check_new, e) refl
    | inl (id, e) ↦ elim (Bool-cases (contains id p.entries)) [
      | inl known ↦ rw (pre_check, check_new, e, known) refl
      | inr unknown ↦ elim (Bool-cases (is_coinbase tx)) [
        | inl minted ↦ rw (pre_check, check_new, e, unknown, minted) refl
        | inr spends ↦
            let same = refuse_spent-pre_check_inputs tx.inputs p.spent_outpoints in
            elim (Result-cases (refuse_spent tx.inputs p.spent_outpoints)) [
              | inl (done, passed) ↦
                  rw (pre_check, check_new, e, unknown, spends, ← same, passed) refl
              | inr (x, failed) ↦ rw (pre_check, check_new, e, unknown, spends, ← same, failed) refl
            ]
      ]
    ]
  ]

module _ (sha : Sha) (smt : Smt) (setting : Setting) where
  -- The second half of `add_in_steps`.
  unfoldable pub after_validate :
      Transaction
      → UtxoSet smt
      → Result (ℕ × (ℕ × ℕ)) ValidationError
      → Exec Mempool Hash256 MempoolError
  after_validate tx s (ok paid) p = add_validated sha smt tx paid.0 paid.1.0 paid.1.1 s p
  after_validate tx s (err e) p = (err (validation_failed e), p)

  -- What the callers in rpc.rs and network/sync.rs do, which validate outside the lock of the pool:
  -- `pre_check`, `validate_transaction` and `add_validated`, each if the one before it succeeds.
  unfoldable pub add_in_steps : Transaction → UtxoSet smt → ℕ → Exec Mempool Hash256 MempoolError
  unfolding after_validate
  add_in_steps tx s current_height p =
      run_after (pre_check sha tx p, p)
        (λ done. after_validate tx s (validate_transaction sha smt setting tx s current_height))

  add-after_validate :
      (tx : Transaction) (s : UtxoSet smt) (height : ℕ) (p : Mempool) (id : Hash256)
      (r : Result (ℕ × (ℕ × ℕ)) ValidationError)
      → validate_transaction sha smt setting tx s height ≡ r
      → check_new sha tx p ≡ ok id
      → add sha smt setting tx s height p ≡ after_validate tx s r p
  unfolding add after_validate add_validated density_for density_of
  add-after_validate tx s height p id (err e) h k = rw (k, h) refl
  add-after_validate tx s height p id (ok paid) h k =
      let passed : screen sha tx p ≡ ok id = sym (check_new-screen sha tx p) ∙ k in
      elim (Option-cases (tx_cost_with_script_cost tx paid.1.0 paid.1.1)) [
        | inl overflow ↦ rw (add, after_validate, add_validated, k, h, passed, overflow) refl
        | inr (cost, priced) ↦
            let e = new_entry smt tx id paid.0 cost s in
            rw (add, after_validate, add_validated, k, h, passed, priced)
              (admitted_alike (density_of paid.0 cost) (size_or 0 tx) e id p)
      ]

  add-refused :
      (tx : Transaction) (s : UtxoSet smt) (height : ℕ) (p : Mempool) (e : MempoolError)
      → check_new sha tx p ≡ err e
      → add sha smt setting tx s height p ≡ (err e, p)
  unfolding add
  add-refused tx s height p e k = rw k refl

  -- Adding a transaction has the result and leaves the pool that three steps on the same pool have,
  -- which validate the transaction between the two accesses to the pool, each if the one before it
  -- succeeds: pre_check, then validate_transaction, whose error is passed on, then add_validated with
  -- the fee and the costs that it returns. The checks, the eviction loop and the writes that add and
  -- the steps have each in a copy of their own agree.
  pub add-add_in_steps :
      (tx : Transaction) (s : UtxoSet smt) (height : ℕ) (p : Mempool)
      → add sha smt setting tx s height p ≡ add_in_steps tx s height p
  unfolding add_in_steps
  add-add_in_steps tx s height p = elim (Result-cases (check_new sha tx p)) [
    | inl (id, k) ↦
        rw (add_in_steps, pre_check-check_new sha tx p, k)
          (add-after_validate tx s height p id _ refl k)
    | inr (e, k) ↦
        rw (add_in_steps, pre_check-check_new sha tx p, k) (add-refused tx s height p e k)
  ]
