-- ===== src/Chain/State/Outputs.antt =====
-- chain/state.rs: the outputs of a transaction go in, and come out again.
use exfer.Common.{
  ap, ℕ, ◌≡◌, refl, sym, ◌∙◌, arith, ◌+◌, Bool, true, false, ◌||◌, none, some, List, [], ◌∷◌,
  if◌then◌else◌, ok,
}
use exfer.Common.Map.{lookup, contains}
use exfer.Common.Exec.{run_after-eq-ok, ok_injective}
use exfer.Types.Hash.{Hash256, Sha}
use exfer.Types.Transaction.{TxOutput, OutPoint}
use exfer.Chain.Smt.{Smt}
use exfer.Chain.State.Defs.{
  UtxoEntry, UtxoMutation, inserted, UtxoSet, insert_utxo, remove_utxo, outpoint_eq,
  outpoint_eq_iff, outpoint_key, collect_spent_utxos,
}
use exfer.Chain.State.Apply.{created_outpoint, insert_outputs, remove_outputs}
use exfer.Chain.State.Lookup.{Inserted, insert_utxo-Inserted, remove_utxo_found, lookup-remove_utxo}

module _ (sha : Sha) (smt : Smt) where
  -- The two sets answer every lookup alike.
  abbrev pub SameEntries : UtxoSet smt → UtxoSet smt → Type 0
  SameEntries s t = (op : OutPoint) → lookup op s.utxos ≡ lookup op t.utxos

  -- One step of `insert_outputs`.
  pub insert_outputs_step :
      (id : Hash256) (height : ℕ) (coinbase : Bool) (idx : ℕ) (o : TxOutput) (os : List TxOutput)
      (s s' : UtxoSet smt) (ms : List UtxoMutation)
      → insert_outputs sha smt id height coinbase idx (o ∷ os) s ≡ (ok ms, s')
      → (s1 : UtxoSet smt) × (ms' : List UtxoMutation) × Inserted sha smt
          (created_outpoint id idx)
          (record { output = o; height = height; is_coinbase = coinbase })
          s
          s1
        × (insert_outputs sha smt id height coinbase (idx + 1) os s1 ≡ (ok ms', s'))
        × (collect_spent_utxos ms ≡ collect_spent_utxos ms')
  unfolding insert_outputs collect_spent_utxos
  insert_outputs_step id height coinbase idx o os s s' ms h =
      let entry : UtxoEntry = record { output = o; height = height; is_coinbase = coinbase } in
      let op = created_outpoint id idx in
      let (u, s1, first, rest) = run_after-eq-ok (insert_utxo sha smt op entry s) _ h in
      let (ms', s2, more, last) =
        run_after-eq-ok (insert_outputs sha smt id height coinbase (idx + 1) os s1) _ rest in
      let (same_log, same_set) = ok_injective (inserted op entry ∷ ms') ms s2 s' last in
      (
        s1,
        ms',
        insert_utxo-Inserted sha smt op entry s s1 first,
        rw same_set at more,
        ap collect_spent_utxos (sym same_log),
      )

  -- The outputs' entries are new, and what was there stays.
  insert_outputs_keeps :
      (id : Hash256) (height : ℕ) (coinbase : Bool) (idx : ℕ) (os : List TxOutput)
      (s s' : UtxoSet smt) (ms : List UtxoMutation) (op : OutPoint) (e : UtxoEntry)
      → insert_outputs sha smt id height coinbase idx os s ≡ (ok ms, s')
      → lookup op s.utxos ≡ some e
      → lookup op s'.utxos ≡ some e
  unfolding insert_outputs
  insert_outputs_keeps id height coinbase idx [] s s' ms op e h at =
      rw (← (ok_injective [] ms s s' h).1) at
  insert_outputs_keeps id height coinbase idx (o ∷ os) s s' ms op e h at =
      let (s1, ms', i, rest, spent) = insert_outputs_step id height coinbase idx o os s s' ms h in
      insert_outputs_keeps id height coinbase (idx + 1) os s1 s' ms' op e rest
        (ground (arith, i.after op, i.absent, at, outpoint_eq_iff (created_outpoint id idx) op))

  pub insert_outputs_spends_nothing :
      (id : Hash256) (height : ℕ) (coinbase : Bool) (idx : ℕ) (os : List TxOutput)
      (s s' : UtxoSet smt) (ms : List UtxoMutation)
      → insert_outputs sha smt id height coinbase idx os s ≡ (ok ms, s')
      → collect_spent_utxos ms ≡ []
  unfolding insert_outputs collect_spent_utxos
  insert_outputs_spends_nothing id height coinbase idx [] s s' ms h =
      rw (← (ok_injective [] ms s s' h).0)
  insert_outputs_spends_nothing id height coinbase idx (o ∷ os) s s' ms h =
      let (s1, ms', i, rest, spent) = insert_outputs_step id height coinbase idx o os s s' ms h in
      spent ∙ insert_outputs_spends_nothing id height coinbase (idx + 1) os s1 s' ms' rest

  -- `t` has what `s` has, less what `hidden` tells.
  abbrev pub Without : (OutPoint → Bool) → UtxoSet smt → UtxoSet smt → Type 0
  Without hidden s t =
      (op : OutPoint) → lookup op t.utxos ≡ (if hidden op then none else lookup op s.utxos)

  pub remove_outputs_undoes :
      (id : Hash256) (height : ℕ) (coinbase : Bool) (idx : ℕ) (os : List TxOutput)
      (s s' t : UtxoSet smt) (ms : List UtxoMutation) (hidden : OutPoint → Bool)
      → insert_outputs sha smt id height coinbase idx os s ≡ (ok ms, s')
      → ((op : OutPoint) → hidden op ≡ true → contains op s.utxos ≡ true)
      → Without hidden s' t
      → (t' : UtxoSet smt) × (remove_outputs sha smt id idx os t ≡ (ok tt, t'))
        × Without hidden s t'
  unfolding insert_outputs remove_outputs
  remove_outputs_undoes id height coinbase idx [] s s' t ms hidden h hides same =
      (t, refl, λ op. rw ((ok_injective [] ms s s' h).1) (same op))
  remove_outputs_undoes id height coinbase idx (o ∷ os) s s' t ms hidden h hides same =
      let op = created_outpoint id idx in
      let (s1, ms', i, rest, spent) = insert_outputs_step id height coinbase idx o os s s' ms h in
      let entry : UtxoEntry = record { output = o; height = height; is_coinbase = coinbase } in
      let seen : hidden op ≡ false = ground (arith, hides op, i.absent) in
      let there =
        insert_outputs_keeps id height coinbase (idx + 1) os s1 s' ms' op entry rest
          (ground (arith, i.after op, outpoint_eq_iff op op)) in
      let found : (remove_utxo sha smt op t).0 ≡ some entry =
        remove_utxo_found sha smt op t ∙ same op ∙ rw seen there in
      let (t', done, after) =
        remove_outputs_undoes id height coinbase (idx + 1) os s1 s' (remove_utxo sha smt op t).1 ms'
          (λ j. outpoint_eq op j || hidden j) rest
          (λ j hid. ground (arith, hid, hides j, i.after j))
          (λ j. ground (arith, lookup-remove_utxo sha smt op j t, same j)) in
      (
        t',
        rw (remove_outputs, found) done,
        λ j. ground (arith, after j, i.after j, outpoint_eq_iff op j, i.absent, seen),
      )
