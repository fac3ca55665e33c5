-- ===== src/Chain/State/Undo.antt =====
-- chain/state.rs: `undo_transaction` takes back what `apply_transaction` did.
use exfer.Common.{
  Option-cases, Result-cases, Bool-cases, inl, inr, ap, ℕ, ◌≡◌, refl, sym, ◌∙◌, arith, true, false,
  Option, none, some, List, [], ◌∷◌, ◌++◌, append-nil, length, if◌then◌else◌, Result, ok, not, ◌==◌,
  ◌&&◌, map, ◌⊎◌, Bool,
}
use exfer.Common.Map.{lookup, is_some}
use exfer.Common.Exec.{run_after-eq-ok, ok_injective, pure}
use exfer.Types.Hash.{Hash256, Sha}
use exfer.Types.Transaction.{TxInput, TxOutput, Transaction, OutPoint, is_coinbase, tx_id}
use exfer.Chain.Smt.{Smt}
use exfer.Chain.State.Defs.{
  UtxoEntry, UtxoMutation, inserted, removed, UtxoSet, StateError, remove_utxo, outpoint_eq,
  outpoint_eq_iff, outpoint_key, collect_spent_utxos,
}
use exfer.Chain.State.Apply.{
  spent_outpoint, id_of, remove_input, remove_inputs, insert_outputs, restore_inputs,
  apply_transaction, undo_transaction,
}
use exfer.Chain.State.Lookup.{
  AllSerialize, insert_utxo-Inserted, insert_utxo_fresh, remove_utxo_found, lookup-remove_utxo,
}
use exfer.Chain.State.Outputs.{SameEntries, insert_outputs_spends_nothing, remove_outputs_undoes}

module _ (sha : Sha) (smt : Smt) where
  -- `t` has what `s` has, and what `added` gives.
  abbrev pub With : (OutPoint → Option UtxoEntry) → UtxoSet smt → UtxoSet smt → Type 0
  With added s t =
      (op : OutPoint)
      → lookup op t.utxos ≡ (if is_some (added op) then added op else lookup op s.utxos)

  remove_input_found :
      (i : TxInput) (s s1 : UtxoSet smt) (m : UtxoMutation)
      → remove_input sha smt i s ≡ (ok m, s1)
      → (e : UtxoEntry) × (lookup (spent_outpoint i) s.utxos ≡ some e)
        × (m ≡ removed (spent_outpoint i) e)
        × (s1 ≡ (remove_utxo sha smt (spent_outpoint i) s).1)
  unfolding remove_input
  remove_input_found i s s1 m h =
      let op = spent_outpoint i in
      elim (Option-cases (remove_utxo sha smt op s).0) [
        | inl none_there ↦ cc (rw (remove_input, none_there) at h)
        | inr (e, there) ↦
            let (same_log, same_set) =
              ok_injective (removed op e) m (remove_utxo sha smt op s).1 s1
                (rw (remove_input, there) at h) in
            (e, sym (remove_utxo_found sha smt op s) ∙ there, sym same_log, sym same_set)
      ]

  -- One step of `remove_inputs`.
  pub remove_inputs_step :
      (i : TxInput) (is : List TxInput) (s s' : UtxoSet smt) (ms : List UtxoMutation)
      → remove_inputs sha smt (i ∷ is) s ≡ (ok ms, s')
      → (e : UtxoEntry) × (ms' : List UtxoMutation) × (lookup (spent_outpoint i) s.utxos ≡ some e)
        × (remove_inputs sha smt is (remove_utxo sha smt (spent_outpoint i) s).1 ≡ (ok ms', s'))
        × (removed (spent_outpoint i) e ∷ ms' ≡ ms)
  unfolding remove_inputs
  remove_inputs_step i is s s' ms h =
      let (m, s1, first, rest) = run_after-eq-ok (remove_input sha smt i s) _ h in
      let (ms', s2, more, last) = run_after-eq-ok (remove_inputs sha smt is s1) _ rest in
      let (same_log, same_set) = ok_injective (m ∷ ms') ms s2 s' last in
      let (e, there, removal, after) = remove_input_found i s s1 m first in
      (e, ms', there, rw (after, same_set) at more, rw removal at same_log)

  pub remove_inputs_absent :
      (is : List TxInput) (s s' : UtxoSet smt) (ms : List UtxoMutation) (op : OutPoint)
      → remove_inputs sha smt is s ≡ (ok ms, s')
      → lookup op s.utxos ≡ none
      → lookup op s'.utxos ≡ none
  unfolding remove_inputs
  remove_inputs_absent [] s s' ms op h absent = rw (← (ok_injective [] ms s s' h).1) absent
  remove_inputs_absent (i ∷ is) s s' ms op h absent =
      let (e, ms', there, rest, log) = remove_inputs_step i is s s' ms h in
      remove_inputs_absent is (remove_utxo sha smt (spent_outpoint i) s).1 s' ms' op rest
        (ground (arith, lookup-remove_utxo sha smt (spent_outpoint i) op s, absent))

  restore_inputs_undoes :
      (is : List TxInput) (s s' t : UtxoSet smt) (ms : List UtxoMutation)
      (added : OutPoint → Option UtxoEntry)
      → remove_inputs sha smt is s ≡ (ok ms, s')
      → AllSerialize sha smt s
      → ((op : OutPoint) → is_some (added op) ≡ true → lookup op s.utxos ≡ none)
      → With added s' t
      → (t' : UtxoSet smt) × (restore_inputs sha smt (collect_spent_utxos ms) t ≡ (ok tt, t'))
        × With added s t'
  unfolding remove_inputs restore_inputs collect_spent_utxos
  restore_inputs_undoes [] s s' t ms added h fits fresh same =
      let (no_log, same_set) = ok_injective [] ms s s' h in
      (t, rw (← no_log), λ op. rw same_set (same op))
  restore_inputs_undoes (i ∷ is) s s' t ms added h fits fresh same =
      let op = spent_outpoint i in
      let s1 = (remove_utxo sha smt op s).1 in
      let (e, ms', there, rest, log) = remove_inputs_step i is s s' ms h in
      let seen : added op ≡ none = ground (arith, fresh op, there) in
      let gone : lookup op t.utxos ≡ none =
        same op
        ∙ rw seen (
            remove_inputs_absent is s1 s' ms' op rest
              (ground (arith, lookup-remove_utxo sha smt op op s, outpoint_eq_iff op op))) in
      let (t1, wrote) = insert_utxo_fresh sha smt op e t gone (fits op e there) in
      let i1 = insert_utxo-Inserted sha smt op e t t1 wrote in
      let (t', done, after) =
        restore_inputs_undoes is s1 s' t1 ms' (λ j. if outpoint_eq op j then some e else added j)
          rest (λ j f at. fits j f (ground (arith, at, lookup-remove_utxo sha smt op j s)))
          (λ j some_there. ground (arith, some_there, fresh j, lookup-remove_utxo sha smt op j s))
          (λ j. ground (arith, i1.after j, same j)) in
      (
        t',
        rw (← log, restore_inputs, gone, wrote) done,
        λ j.
            ground (
              arith,
              after j,
              lookup-remove_utxo sha smt op j s,
              outpoint_eq_iff op j,
              there,
              seen,
            ),
      )

  length-spent :
      (is : List TxInput) (s s' : UtxoSet smt) (ms : List UtxoMutation)
      → remove_inputs sha smt is s ≡ (ok ms, s')
      → length (collect_spent_utxos ms) ≡ length is
  unfolding remove_inputs collect_spent_utxos
  length-spent [] s s' ms h = rw (← (ok_injective [] ms s s' h).0)
  length-spent (i ∷ is) s s' ms h =
      let (e, ms', there, rest, log) = remove_inputs_step i is s s' ms h in
      rw (← log, length-spent is (remove_utxo sha smt (spent_outpoint i) s).1 s' ms' rest)

  id_of_same :
      (tx : Transaction) (s s' t : UtxoSet smt) (id : Hash256)
      → id_of sha smt tx s ≡ (ok id, s')
      → (s' ≡ s) × (id_of sha smt tx t ≡ (ok id, t))
  unfolding id_of
  id_of_same tx s s' t id h = elim (Result-cases (tx_id sha tx)) [
    | inl (d, e) ↦
        let (same_id, same_set) = ok_injective d id s s' (rw (id_of, e) at h) in
        (sym same_set, rw (id_of, e, same_id))
    | inr (x, e) ↦ cc (rw (id_of, e) at h)
  ]

  -- The spending part of `apply_transaction`.
  abbrev pub spend : Transaction → UtxoSet smt → Result (List UtxoMutation) StateError × UtxoSet smt
  spend tx = if is_coinbase tx then pure [] else remove_inputs sha smt tx.inputs

  spend_undone :
      (tx : Transaction) (s s1 t : UtxoSet smt) (ms : List UtxoMutation)
      → spend tx s ≡ (ok ms, s1)
      → AllSerialize sha smt s
      → SameEntries sha smt s1 t
      → (t' : UtxoSet smt) × (restore_inputs sha smt (collect_spent_utxos ms) t ≡ (ok tt, t'))
        × SameEntries sha smt s t'
        × ((not (is_coinbase tx) && not (length (collect_spent_utxos ms) == length tx.inputs))
            ≡ false)
  unfolding collect_spent_utxos restore_inputs
  spend_undone tx s s1 t ms h fits same = elim (Bool-cases (is_coinbase tx)) [
    | inl minted ↦
        let (no_log, same_set) = ok_injective [] ms s s1 (rw minted at h) in
        (t, rw (← no_log), λ op. rw same_set (same op), rw minted)
    | inr spends ↦
        let removals = rw spends at h in
        let (t', done, after) =
          restore_inputs_undoes tx.inputs s s1 t ms (λ op. none) removals fits (λ op some_there. cc)
            (λ op. sym (same op)) in
        (
          t',
          done,
          λ op. sym (after op),
          ground (arith, spends, length-spent tx.inputs s s1 ms removals),
        )
  ]

  pub collect-append :
      (ms ns : List UtxoMutation)
      → collect_spent_utxos (ms ++ ns) ≡ collect_spent_utxos ms ++ collect_spent_utxos ns
  unfolding collect_spent_utxos
  collect-append [] ns = refl
  collect-append (removed op e ∷ ms) ns = ap (λ rest. (op, e) ∷ rest) (collect-append ms ns)
  collect-append (inserted op e ∷ ms) ns = collect-append ms ns

  -- The parts of a successful `apply_transaction`.
  pub apply_parts :
      (tx : Transaction) (height : ℕ) (s s' : UtxoSet smt) (ms : List UtxoMutation)
      → apply_transaction sha smt tx height s ≡ (ok ms, s')
      → (id : Hash256) × (spent : List UtxoMutation) × (s1 : UtxoSet smt) × (created : List
          UtxoMutation)
        × (id_of sha smt tx s ≡ (ok id, s))
        × (spend tx s ≡ (ok spent, s1))
        × (insert_outputs sha smt id height (is_coinbase tx) 0 tx.outputs s1 ≡ (ok created, s'))
        × (spent ++ created ≡ ms)
  unfolding apply_transaction
  apply_parts tx height s s' ms h =
      let (id, s0, named, rest) = run_after-eq-ok (id_of sha smt tx s) _ h in
      let (same_set, again) = id_of_same tx s s0 s id named in
      let (spent, s1, spending, more) = run_after-eq-ok (spend tx s0) _ rest in
      let (created, s2, creating, last) =
        run_after-eq-ok (insert_outputs sha smt id height (is_coinbase tx) 0 tx.outputs s1) _
          more in
      let (same_log, same_end) = ok_injective (spent ++ created) ms s2 s' last in
      (id, spent, s1, created, again, rw same_set at spending, rw same_end at creating, same_log)

  -- The log names the inputs, or nothing when the transaction mints.
  pub keys_spent :
      (is : List TxInput) (s s' : UtxoSet smt) (ms : List UtxoMutation)
      → remove_inputs sha smt is s ≡ (ok ms, s')
      → map (λ p. p.0) (collect_spent_utxos ms) ≡ map spent_outpoint is
  unfolding remove_inputs collect_spent_utxos
  keys_spent [] s s' ms h = rw (← (ok_injective [] ms s s' h).0)
  keys_spent (i ∷ is) s s' ms h =
      let (e, ms', there, rest, log) = remove_inputs_step i is s s' ms h in
      rw (← log, keys_spent is (remove_utxo sha smt (spent_outpoint i) s).1 s' ms' rest)

  collect-log :
      (id : Hash256) (height : ℕ) (coinbase : Bool) (os : List TxOutput) (s1 s' : UtxoSet smt)
      (spent created ms : List UtxoMutation)
      → insert_outputs sha smt id height coinbase 0 os s1 ≡ (ok created, s')
      → spent ++ created ≡ ms
      → collect_spent_utxos ms ≡ collect_spent_utxos spent
  collect-log id height coinbase os s1 s' spent created ms creating log = rw (
    ← log,
    collect-append,
    insert_outputs_spends_nothing sha smt id height coinbase 0 os s1 s' created creating,
    append-nil,
  )

  pub log_spends :
      (tx : Transaction) (height : ℕ) (s s' : UtxoSet smt) (ms : List UtxoMutation)
      → apply_transaction sha smt tx height s ≡ (ok ms, s')
      → (spent : List UtxoMutation) × (s1 : UtxoSet smt) × (spend tx s ≡ (ok spent, s1))
        × (collect_spent_utxos ms ≡ collect_spent_utxos spent)
  log_spends tx height s s' ms h =
      let (id, spent, s1, created, named, spending, creating, log) =
        apply_parts tx height s s' ms h in
      (
        spent,
        s1,
        spending,
        collect-log id height (is_coinbase tx) tx.outputs s1 s' spent created ms creating log,
      )

  pub keys-apply_transaction :
      (tx : Transaction) (height : ℕ) (s s' : UtxoSet smt) (ms : List UtxoMutation)
      → apply_transaction sha smt tx height s ≡ (ok ms, s')
      → (collect_spent_utxos ms ≡ [])
        ⊎ (map (λ p. p.0) (collect_spent_utxos ms) ≡ map spent_outpoint tx.inputs)
  unfolding collect_spent_utxos
  keys-apply_transaction tx height s s' ms h =
      let (spent, s1, spending, log) = log_spends tx height s s' ms h in
      elim (Bool-cases (is_coinbase tx)) [
        | inl minted ↦
            let (no_log, same_set) = ok_injective [] spent s s1 (rw minted at spending) in
            inl (log ∙ rw (← no_log))
        | inr spends ↦ inr (rw log (keys_spent tx.inputs s s1 spent (rw spends at spending)))
      ]

  -- As `undo_transaction-apply_transaction`, from any set that answers lookups like the result.
  pub undo_transaction_alike :
      (tx : Transaction) (height : ℕ) (s s' u : UtxoSet smt) (ms : List UtxoMutation)
      → AllSerialize sha smt s
      → apply_transaction sha smt tx height s ≡ (ok ms, s')
      → SameEntries sha smt s' u
      → (t : UtxoSet smt) × (undo_transaction sha smt tx (collect_spent_utxos ms) u ≡ (ok tt, t))
        × SameEntries sha smt s t
  unfolding undo_transaction
  undo_transaction_alike tx height s s' u ms fits h alike =
      let (id, spent, s1, created, named, spending, creating, log) =
        apply_parts tx height s s' ms h in
      let (_, again) = id_of_same tx s s u id named in
      let (t1, emptied, out) =
        remove_outputs_undoes sha smt id height (is_coinbase tx) 0 tx.outputs s1 s' u created
          (λ op. false) creating (λ op never. cc) (λ op. sym (alike op)) in
      let (t, restored, back, counted) =
        spend_undone tx s s1 t1 spent spending fits (λ op. sym (out op)) in
      let logs =
        collect-log id height (is_coinbase tx) tx.outputs s1 s' spent created ms creating log in
      (t, rw (logs, undo_transaction, counted, again, emptied) restored, back)

  -- When a transaction has been applied without an error to a set whose entries all have an
  -- encoding, undoing it with the spent entries of the returned log succeeds, and the set then
  -- answers every lookup as it did before the transaction.
  pub undo_transaction-apply_transaction :
      (tx : Transaction) (height : ℕ) (s s' : UtxoSet smt) (ms : List UtxoMutation)
      → AllSerialize sha smt s
      → apply_transaction sha smt tx height s ≡ (ok ms, s')
      → (t : UtxoSet smt) × (undo_transaction sha smt tx (collect_spent_utxos ms) s' ≡ (ok tt, t))
        × SameEntries sha smt s t
  undo_transaction-apply_transaction tx height s s' ms fits h =
      undo_transaction_alike tx height s s' s' ms fits h (λ op. refl)
