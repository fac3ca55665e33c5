-- ===== src/Consensus/Validation/Restored.antt =====
-- consensus/validation.rs: undoing a block gives back the UTXO set before it.
use exfer.Common.{
  ℕ, ◌≡◌, ◌≢◌, refl, sym, ◌∙◌, ap, inl, inr, List, [], ◌∷◌, ◌++◌, map, All, append_assoc,
  append-nil, length, take, ok,
}
use mathlib.Core.Path.{subst}
use exfer.Common.Exec.{run_after-eq-ok, ok_injective}
use exfer.Types.Hash.{Sha}
use exfer.Types.Transaction.{Transaction, OutPoint}
use exfer.Types.Block.{Block}
use exfer.Chain.Smt.{Smt}
use exfer.Chain.State.Defs.{UtxoEntry, UtxoMutation, UtxoSet, collect_spent_utxos, outpoint_key}
use exfer.Chain.State.Apply.{spent_outpoint, apply_transaction}
use exfer.Chain.State.Lookup.{AllSerialize}
use exfer.Chain.State.Outputs.{SameEntries}
use exfer.Chain.State.Undo.{keys-apply_transaction, collect-append, undo_transaction_alike}
use exfer.Chain.State.Encodable.{AllSerialize-apply_transaction}
use exfer.Consensus.Validation.Header.{spent_by}
use exfer.Consensus.Validation.Distinct.{IsDistinct}
use exfer.Consensus.Validation.Undo.{
  spent_entries, undo_backwards, undo_applied_transactions, undo_block_transactions, apply_all,
}
use exfer.Consensus.Validation.Spent.{
  All-append, append-All, Apart, Apart-sym, IsDistinct-append, spent_entries_none,
  spent_entries-append, spent_entries_own,
}

pub take-length : {A : Type 0} (xs : List A) → take (length xs) xs ≡ xs
take-length [] = refl
take-length (x ∷ xs) = ap (λ rest. x ∷ rest) (take-length xs)

pub Apart-append : (xs ys zs : List OutPoint) → Apart xs (ys ++ zs) → Apart xs ys × Apart xs zs
Apart-append [] ys zs h = (tt, tt)
Apart-append (x ∷ xs) ys zs h =
    let (left, right) = All-append (λ y. y ≢ x) ys zs h.0 in
    let (lefts, rights) = Apart-append xs ys zs h.1 in ((left, lefts), (right, rights))

module _ (sha : Sha) (smt : Smt) where
  -- One step of `apply_all`.
  apply_all_step :
      (tx : Transaction) (txs : List Transaction) (height : ℕ) (s s' : UtxoSet smt)
      (ms : List UtxoMutation)
      → apply_all sha smt (tx ∷ txs) height s ≡ (ok ms, s')
      → (first : List UtxoMutation) × (more : List UtxoMutation) × (s1 : UtxoSet smt)
        × (apply_transaction sha smt tx height s ≡ (ok first, s1))
        × (apply_all sha smt txs height s1 ≡ (ok more, s'))
        × (collect_spent_utxos ms ≡ collect_spent_utxos first ++ collect_spent_utxos more)
  unfolding apply_all
  apply_all_step tx txs height s s' ms h =
      let (first, s1, one, rest) = run_after-eq-ok (apply_transaction sha smt tx height s) _ h in
      let (more, s2, others, last) = run_after-eq-ok (apply_all sha smt txs height s1) _ rest in
      let (same_log, same_set) = ok_injective (first ++ more) ms s2 s' last in
      (
        first,
        more,
        s1,
        one,
        rw same_set at others,
        rw (← same_log) (collect-append sha smt first more),
      )

  -- A log names outpoints of the inputs alone.
  All-first :
      (P : OutPoint → Type 0) (tx : Transaction) (height : ℕ) (s s' : UtxoSet smt)
      (ms : List UtxoMutation)
      → apply_transaction sha smt tx height s ≡ (ok ms, s')
      → All P (map spent_outpoint tx.inputs)
      → All P (map (λ p. p.0) (collect_spent_utxos ms))
  All-first P tx height s s' ms h all = elim (keys-apply_transaction sha smt tx height s s' ms h) [
    | inl nothing ↦ subst (λ ps. All P (map (λ p. p.0) ps)) (sym nothing) tt
    | inr same ↦ subst (All P) (sym same) all
  ]

  pub map-append :
      (ps qs : List (OutPoint × UtxoEntry))
      → map (λ p. p.0) (ps ++ qs) ≡ map (λ p. p.0) ps ++ map (λ p. p.0) qs
  map-append [] qs = refl
  map-append (p ∷ ps) qs = ap (λ rest. p.0 ∷ rest) (map-append ps qs)

  All-collected :
      (P : OutPoint → Type 0) (txs : List Transaction) (height : ℕ) (s s' : UtxoSet smt)
      (ms : List UtxoMutation)
      → apply_all sha smt txs height s ≡ (ok ms, s')
      → All P (spent_by txs)
      → All P (map (λ p. p.0) (collect_spent_utxos ms))
  unfolding apply_all spent_by collect_spent_utxos
  All-collected P [] height s s' ms h all =
      subst (λ l. All P (map (λ p. p.0) (collect_spent_utxos l))) ((ok_injective [] ms s s' h).0) tt
  All-collected P (tx ∷ txs) height s s' ms h all =
      let (first, more, s1, one, others, log) = apply_all_step tx txs height s s' ms h in
      let (own, rest) = All-append P (map spent_outpoint tx.inputs) (spent_by txs) all in
      subst (λ ps. All P (map (λ p. p.0) ps)) (sym log)
        (subst (All P) (sym (map-append (collect_spent_utxos first) (collect_spent_utxos more))) (
          append-All P _ _ (All-first P tx height s s1 first one own)
            (All-collected P txs height s1 s' more others rest)))

  own_kept :
      (tx : Transaction) (height : ℕ) (s s1 : UtxoSet smt) (first : List UtxoMutation)
      → apply_transaction sha smt tx height s ≡ (ok first, s1)
      → spent_entries tx.inputs (collect_spent_utxos first) ≡ collect_spent_utxos first
  unfolding spent_entries
  own_kept tx height s s1 first one =
      elim (keys-apply_transaction sha smt tx height s s1 first one) [
        | inl nothing ↦ subst (λ ps. spent_entries tx.inputs ps ≡ ps) (sym nothing) refl
        | inr same ↦ spent_entries_own tx.inputs (collect_spent_utxos first) same
      ]

  own_entries :
      (tx : Transaction) (height : ℕ) (s s1 : UtxoSet smt) (first : List UtxoMutation)
      (before later : List (OutPoint × UtxoEntry))
      → apply_transaction sha smt tx height s ≡ (ok first, s1)
      → Apart (map (λ p. p.0) before) (map spent_outpoint tx.inputs)
      → Apart (map (λ p. p.0) later) (map spent_outpoint tx.inputs)
      → spent_entries tx.inputs (before ++ (collect_spent_utxos first ++ later))
        ≡ collect_spent_utxos first
  own_entries tx height s s1 first before later one apart apart' =
      let own = collect_spent_utxos first in
      spent_entries-append tx.inputs before (own ++ later)
      ∙ rw
          (
            spent_entries_none tx.inputs before apart,
            spent_entries-append tx.inputs own later,
            spent_entries_none tx.inputs later apart',
            append-nil (spent_entries tx.inputs own),
          )
          (own_kept tx height s s1 first one)

  -- The transactions of a suffix of a block are undone, with a log in which more stands before and
  -- after their own, of other outpoints.
  pub undo_backwards_lem :
      (txs : List Transaction) (height : ℕ) (s s' u : UtxoSet smt) (ms : List UtxoMutation)
      (before after : List (OutPoint × UtxoEntry))
      → AllSerialize sha smt s
      → IsDistinct (spent_by txs)
      → Apart (map (λ p. p.0) before) (spent_by txs)
      → Apart (map (λ p. p.0) after) (spent_by txs)
      → apply_all sha smt txs height s ≡ (ok ms, s')
      → SameEntries sha smt s' u
      → (t : UtxoSet smt) × (undo_backwards sha smt txs
            (before ++ (collect_spent_utxos ms ++ after))
            u
          ≡ (ok tt, t))
        × SameEntries sha smt s t
  unfolding apply_all spent_by undo_backwards
  undo_backwards_lem [] height s s' u ms before after fits distinct apart apart' h alike =
      (u, refl, λ op. rw ((ok_injective [] ms s s' h).1) (alike op))
  undo_backwards_lem (tx ∷ txs) height s s' u ms before after fits distinct apart apart' h alike =
      let (first, more, s1, one, others, log) = apply_all_step tx txs height s s' ms h in
      let own = collect_spent_utxos first in
      let later = collect_spent_utxos more in
      let inputs = map spent_outpoint tx.inputs in
      let (free, rest) = IsDistinct-append inputs (spent_by txs) distinct in
      let (before_own, before_later) =
        Apart-append (map (λ p. p.0) before) inputs (spent_by txs) apart in
      let (after_own, after_later) =
        Apart-append (map (λ p. p.0) after) inputs (spent_by txs) apart' in
      let own_later =
        All-first (λ k. All (λ y. y ≢ k) (spent_by txs)) tx height s s1 first one free in
      let later_own =
        All-collected (λ k. All (λ y. y ≢ k) inputs) txs height s1 s' more others
          (Apart-sym inputs (spent_by txs) free) in
      let (t1, undone, back) =
        undo_backwards_lem txs height s1 s' u more (before ++ own) after
          (AllSerialize-apply_transaction sha smt tx height s s1 first fits one) rest
          (rw (map-append before own)
            (append-All (λ k. All (λ y. y ≢ k) (spent_by txs)) _ _ before_later own_later))
          after_later others alike in
      let (t, undone_first, back_first) =
        undo_transaction_alike sha smt tx height s s1 t1 first fits one back in
      let whole : before ++ (collect_spent_utxos ms ++ after)
          ≡ before ++ (own ++ (later ++ after)) =
        ap (λ l. before ++ l) (ap (λ l. l ++ after) log ∙ append_assoc own later after) in
      let found : spent_entries tx.inputs (before ++ (own ++ (later ++ after))) ≡ own =
        own_entries tx height s s1 first before (later ++ after) one before_own (
          rw (map-append later after)
            (append-All (λ k. All (λ y. y ≢ k) inputs) _ _ later_own after_own)) in
      (
        t,
        rw
            (
              whole,
              undo_backwards,
              ← append_assoc before own (later ++ after),
              undone,
              append_assoc before own (later ++ after),
              found,
            )
            undone_first,
        back_first,
      )

  -- When all transactions of a block have been applied one after the other without an error, to a
  -- set whose entries all have an encoding, and no outpoint is spent twice in the block, the
  -- coinbase's sentinel among them, then undoing the block with the spent entries of the joint log
  -- succeeds, and the set then answers every lookup as it did before the block, also where a
  -- transaction spent an output that the same block created.
  pub undo_block_transactions-apply_all :
      (block : Block) (height : ℕ) (s s' : UtxoSet smt) (ms : List UtxoMutation)
      → AllSerialize sha smt s
      → IsDistinct (spent_by block.transactions)
      → apply_all sha smt block.transactions height s ≡ (ok ms, s')
      → (t : UtxoSet smt) × (undo_block_transactions sha smt block (collect_spent_utxos ms) s'
          ≡ (ok tt, t))
        × SameEntries sha smt s t
  unfolding undo_block_transactions undo_applied_transactions
  undo_block_transactions-apply_all block height s s' ms fits distinct h =
      rw (take-length block.transactions, ← append-nil (collect_spent_utxos ms))
        (undo_backwards_lem block.transactions height s s' s' ms [] [] fits distinct tt tt h
          (λ op. refl))
