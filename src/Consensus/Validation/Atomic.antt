-- ===== src/Consensus/Validation/Atomic.antt =====
-- consensus/validation.rs: a block is applied as a whole or not at all.
use exfer.Common.{
  ℕ, ◌+◌, ◌≡◌, ◌≢◌, ◌⊎◌, refl, sym, ◌∙◌, ap, arith, false, inl, inr, List, [], ◌∷◌, ◌++◌, map, All,
  append-nil, append_assoc, length, length-append, take, take-append_length, Result, ok, err,
}
use mathlib.Core.Path.{subst}
use exfer.Common.Exec.{run_after-eq-ok, ok_injective}
use exfer.Common.Map.{lookup}
use exfer.Types.Hash.{Sha}
use exfer.Types.Transaction.{OutPoint, Transaction, is_coinbase}
use exfer.Types.Block.{Block}
use exfer.Chain.Smt.{Smt}
use exfer.Chain.State.Defs.{
  UtxoSet, UtxoEntry, UtxoMutation, StateError, collect_spent_utxos, outpoint_key,
}
use exfer.Chain.State.Apply.{spent_outpoint, apply_transaction}
use exfer.Chain.State.Lookup.{AllSerialize}
use exfer.Chain.State.Outputs.{SameEntries}
use exfer.Chain.State.Undo.{log_spends, collect-append}
use exfer.Consensus.Validation.Defs.{ValidationError, block_too_large}
use exfer.Consensus.Validation.Header.{spent_by}
use exfer.Consensus.Validation.Distinct.{IsDistinct}
use exfer.Consensus.Validation.Witness.{Setting}
use exfer.Consensus.Validation.Undo.{undo_applied_transactions, apply_all}
use exfer.Consensus.Validation.Spent.{
  Apart, Apart-sym, IsDistinct-append, append-IsDistinct, spent_by-append,
}
use exfer.Consensus.Validation.Restored.{Apart-append, undo_backwards_lem}
use exfer.Consensus.Validation.Apply.{
  Applied, snapshot, Outcome, Failure, rolled_back, roll_back, after_apply, after_snapshot,
  after_validation, apply_rest, Loop,
}
use exfer.Consensus.Validation.Corrupted.{IsCorrupted, apply_failed-IsCorrupted}
use exfer.Consensus.Validation.Snapshot.{all_unit, snapshot_frame, snapshot-remove_inputs}

module _ (sha : Sha) (smt : Smt) where
  -- An error that is no sign of a corrupted set leaves every lookup as it was.
  abbrev pub IsSafe : UtxoSet smt → Failure sha smt → Type 0
  IsSafe s (e, s') = IsCorrupted e ⊎ SameEntries sha smt s s'

  all_same :
      (now : UtxoSet smt) (ops : List OutPoint)
      → All (λ op. lookup op now.utxos ≡ lookup op now.utxos) ops
  all_same now [] = tt
  all_same now (op ∷ ops) = (refl, all_same now ops)

  apply_all-snoc :
      (txs : List Transaction) (tx : Transaction) (height : ℕ) (s s1 s2 : UtxoSet smt)
      (ms m : List UtxoMutation)
      → apply_all sha smt txs height s ≡ (ok ms, s1)
      → apply_transaction sha smt tx height s1 ≡ (ok m, s2)
      → apply_all sha smt (txs ++ tx ∷ []) height s ≡ (ok (ms ++ m), s2)
  unfolding apply_all
  apply_all-snoc [] tx height s s1 s2 ms m h k =
      let (no_log, same) = ok_injective [] ms s s1 h in
      rw (apply_all, same, k, append-nil m) (rw (← no_log))
  apply_all-snoc (t ∷ txs) tx height s s1 s2 ms m h k =
      let (first, u, one, rest) = run_after-eq-ok (apply_transaction sha smt t height s) _ h in
      let (more, v, others, last) = run_after-eq-ok (apply_all sha smt txs height u) _ rest in
      let (logs, ends) = ok_injective (first ++ more) ms v s1 last in
      rw (apply_all, one, apply_all-snoc txs tx height u s1 s2 more m (rw ends at others) k)
        (rw (← logs, append_assoc first more m))

  -- How far the loop has come when `done` has been applied.
  pub record Reached (height : ℕ) (s : UtxoSet smt) (done : List Transaction) (p : Applied)
      (now : UtxoSet smt) : Type 0 where
    pub log : apply_all sha smt done height s ≡ (ok p.mutations, now)
    pub spent : p.spent_utxos ≡ collect_spent_utxos p.mutations
    pub count : p.applied_count ≡ length done

  module _ (block : Block) (s : UtxoSet smt) (fits : AllSerialize sha smt s)
      (distinct : IsDistinct (spent_by block.transactions)) where
    abbrev height : ℕ
    height = block.header.height

    -- A rollback to the start of the block, with entries of later transactions in the log.
    roll_back-IsSafe :
        (done rest : List Transaction) (p q : Applied) (now : UtxoSet smt) (e : ValidationError)
        (extra : List (OutPoint × UtxoEntry))
        → block.transactions ≡ done ++ rest
        → Reached height s done p now
        → q.spent_utxos ≡ p.spent_utxos ++ extra
        → q.applied_count ≡ p.applied_count
        → Apart (map (λ k. k.0) extra) (spent_by done)
        → IsSafe s (roll_back sha smt block q e now)
    unfolding roll_back undo_applied_transactions rolled_back
    roll_back-IsSafe done rest p q now e extra whole reached spent count apart =
        let parts : IsDistinct (spent_by done) =
          append-IsDistinct (spent_by done) (spent_by rest)
            (rw (whole, spent_by-append done rest) at distinct) in
        let (t, undone, same) =
          undo_backwards_lem sha smt done height s now now p.mutations [] extra fits parts tt apart
            reached.log (λ op. refl) in
        let first : take q.applied_count block.transactions ≡ done =
          rw (whole, count, reached.count) (take-append_length done rest) in
        rw (roll_back, undo_applied_transactions, first, spent, reached.spent, undone) (inr same)

    -- What the loop gives: all of the block applied, or a safe error.
    abbrev pub IsLooped : Outcome sha smt Applied → Type 0
    IsLooped (ok p, now) = Reached height s block.transactions p now
    IsLooped (err e, now) = IsSafe s (e, now)

    after_apply-IsLooped :
        (setting : Setting) (tx : Transaction) (done : List Transaction) (p q : Applied)
        (now : UtxoSet smt) (next : Loop sha smt setting block)
        (r : Result (List UtxoMutation) StateError × UtxoSet smt)
        → apply_transaction sha smt tx height now ≡ r
        → is_coinbase tx ≡ false
        → IsDistinct (map spent_outpoint tx.inputs)
        → Reached height s done p now
        → snapshot sha smt tx.inputs now p ≡ ok q
        → ((p' : Applied) (now' : UtxoSet smt)
            → Reached height s (done ++ tx ∷ []) p' now'
            → IsLooped (next p' now'))
        → IsLooped (after_apply sha smt setting block tx q next r)
    unfolding after_apply
    after_apply-IsLooped setting tx done p q now next (err e, u) h spends once reached noted_q go =
        inl (apply_failed-IsCorrupted sha smt block tx q e u)
    after_apply-IsLooped setting tx done p q now next (ok m, u) h spends once reached noted_q go =
        let (extra, _, logs, count, _, _) =
          snapshot_frame sha smt (λ op. Unit) tx.inputs now p
            (all_unit (map spent_outpoint tx.inputs)) in
        let logs_q : q.mutations ≡ p.mutations = rw noted_q at logs in
        let count_q : q.applied_count ≡ p.applied_count = rw noted_q at count in
        let (ms, s1, spending, collected) = log_spends sha smt tx height now u m h in
        let spent_q =
          snapshot-remove_inputs sha smt tx.inputs now now s1 p q ms once
            (all_same now (map spent_outpoint tx.inputs)) (rw spends at spending) noted_q in
        go (record q { mutations = q.mutations ++ m; applied_count = q.applied_count + 1 }) u
          (record {
            log = rw logs_q (apply_all-snoc done tx height s now u p.mutations m reached.log h);
            spent =
                spent_q
                ∙ ap (λ l. l ++ collect_spent_utxos ms) reached.spent
                ∙ ap (λ l. collect_spent_utxos p.mutations ++ l) (sym collected)
                ∙ sym (rw logs_q (collect-append sha smt p.mutations m));
            count = omega (arith, count_q, reached.count, length-append done (tx ∷ []));
          })

    -- The inputs of a transaction against those of the transactions before it.
    inputs-Apart :
        (tx : Transaction) (done rest : List Transaction)
        → block.transactions ≡ done ++ tx ∷ rest
        → Apart (map spent_outpoint tx.inputs) (spent_by done)
          × IsDistinct (map spent_outpoint tx.inputs)
    unfolding spent_by
    inputs-Apart tx done rest whole =
        let inputs = map spent_outpoint tx.inputs in
        let (apart, later) =
          IsDistinct-append (spent_by done) (inputs ++ spent_by rest)
            (rw (whole, spent_by-append done (tx ∷ rest)) at distinct) in
        (
          Apart-sym (spent_by done) inputs
              (Apart-append (spent_by done) inputs (spent_by rest) apart).0,
          append-IsDistinct inputs (spent_by rest) later,
        )

    -- A rollback with nothing more in the log.
    pub roll_back_plain :
        (done rest : List Transaction) (p : Applied) (now : UtxoSet smt) (e : ValidationError)
        → block.transactions ≡ done ++ rest
        → Reached height s done p now
        → IsSafe s (roll_back sha smt block p e now)
    roll_back_plain done rest p now e whole reached =
        roll_back-IsSafe done rest p p now e [] whole reached (sym (append-nil p.spent_utxos)) refl
          tt

    module _ (setting : Setting) where
      after_snapshot-IsLooped :
          (tx : Transaction) (done rest : List Transaction) (p : Applied) (now : UtxoSet smt)
          (next : Loop sha smt setting block) (r : Result Applied (ℕ × Applied))
          → snapshot sha smt tx.inputs now p ≡ r
          → block.transactions ≡ done ++ tx ∷ rest
          → is_coinbase tx ≡ false
          → Reached height s done p now
          → ((p' : Applied) (now' : UtxoSet smt)
              → Reached height s (done ++ tx ∷ []) p' now'
              → IsLooped (next p' now'))
          → IsLooped (after_snapshot sha smt setting block tx next r now)
      unfolding after_snapshot
      after_snapshot-IsLooped tx done rest p now next (err e) h whole spends reached go =
          let (apart, once) = inputs-Apart tx done rest whole in
          let (extra, spent, logs, count, fees, names) =
            snapshot_frame sha smt (λ k. All (λ y. y ≢ k) (spent_by done)) tx.inputs now p apart in
          roll_back-IsSafe done (tx ∷ rest) p e.1 now (block_too_large e.0) extra whole reached
            (rw h at spent) (rw h at count) names
      after_snapshot-IsLooped tx done rest p now next (ok q) h whole spends reached go =
          after_apply-IsLooped setting tx done p q now next
            (apply_transaction sha smt tx height now) refl spends
            (inputs-Apart tx done rest whole).1 reached h go

      after_validation-IsLooped :
          (tx : Transaction) (done rest : List Transaction) (p : Applied) (now : UtxoSet smt)
          (next : Loop sha smt setting block) (r : Result (ℕ × (ℕ × ℕ)) ValidationError)
          → block.transactions ≡ done ++ tx ∷ rest
          → is_coinbase tx ≡ false
          → Reached height s done p now
          → ((p' : Applied) (now' : UtxoSet smt)
              → Reached height s (done ++ tx ∷ []) p' now'
              → IsLooped (next p' now'))
          → IsLooped (after_validation sha smt setting block tx next r p now)
      unfolding after_validation
      after_validation-IsLooped tx done rest p now next (err e) whole spends reached go =
          roll_back_plain done (tx ∷ rest) p now e whole reached
      after_validation-IsLooped tx done rest p now next (ok r) whole spends reached go =
          after_snapshot-IsLooped tx done rest (record p { total_fees = p.total_fees + r.0 }) now
            next _ refl whole spends
            (record { log = reached.log; spent = reached.spent; count = reached.count }) go

      pub apply_rest-IsLooped :
          (txs done : List Transaction) (p : Applied) (now : UtxoSet smt)
          → block.transactions ≡ done ++ txs
          → All (λ tx. is_coinbase tx ≡ false) txs
          → Reached height s done p now
          → IsLooped (apply_rest sha smt setting block txs p now)
      unfolding apply_rest
      apply_rest-IsLooped [] done p now whole spends reached =
          subst (λ txs. Reached height s txs p now) (sym (whole ∙ append-nil done)) reached
      apply_rest-IsLooped (tx ∷ txs) done p now whole spends reached =
          after_validation-IsLooped tx done txs p now (apply_rest sha smt setting block txs) _ whole
            spends.0 reached
            (λ p' now' reached'.
              apply_rest-IsLooped txs (done ++ tx ∷ []) p' now'
                (whole ∙ sym (append_assoc done (tx ∷ []) txs)) spends.1 reached')
