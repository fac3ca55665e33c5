-- ===== src/Chain/State/Lookup.antt =====
-- chain/state.rs: what one insertion and one removal do to every lookup.
use exfer.Common.{
  Option-cases, Result-cases, inl, inr, ap, ◌≡◌, arith, none, some, Bytes, if◌then◌else◌, ok,
}
use exfer.Common.Map.{lookup, lookup-insert, lookup-remove}
use exfer.Types.Hash.{Sha}
use exfer.Types.Transaction.{OutPoint, serialize_output}
use exfer.Chain.Smt.{Smt}
use exfer.Chain.State.Defs.{
  UtxoEntry, UtxoSet, insert_utxo, remove_utxo, with_entry, without_entry, outpoint_eq,
  outpoint_eq_iff, outpoint_key,
}

abbrev pub Serializes : UtxoEntry → Type 0
Serializes e = (bytes : Bytes) × (serialize_output e.output ≡ ok bytes)

module _ (sha : Sha) (smt : Smt) where
  -- A set in which every entry has an encoding, as the sets that `insert` builds.
  abbrev pub AllSerialize : UtxoSet smt → Type 0
  AllSerialize s = (op : OutPoint) (e : UtxoEntry) → lookup op s.utxos ≡ some e → Serializes e

  -- The set after a successful insertion.
  pub record Inserted (op : OutPoint) (e : UtxoEntry) (s s' : UtxoSet smt) : Type 0 where
    pub absent : lookup op s.utxos ≡ none
    pub fits : Serializes e
    pub after :
        (j : OutPoint) → lookup j s'.utxos ≡ (if outpoint_eq op j then some e else lookup j s.utxos)

  pub insert_utxo-Inserted :
      (op : OutPoint) (e : UtxoEntry) (s s' : UtxoSet smt)
      → insert_utxo sha smt op e s ≡ (ok tt, s')
      → Inserted op e s s'
  unfolding insert_utxo with_entry
  insert_utxo-Inserted op e s s' h = elim (Option-cases (lookup op s.utxos)) [
    | inr (old, at) ↦ ground (arith, at, h)
    | inl at ↦ elim (Result-cases (serialize_output e.output)) [
      | inr (x, fit) ↦ ground (arith, at, fit, h)
      | inl (bytes, fit) ↦
          let written : with_entry sha smt op e bytes s ≡ s' = ap (λ p. p.1) (rw (at, fit) at h) in
          record {
            absent = at;
            fits = (bytes, fit);
            after = λ j. rw (← written) (lookup-insert op j e s.utxos);
          }
    ]
  ]

  pub insert_utxo_fresh :
      (op : OutPoint) (e : UtxoEntry) (s : UtxoSet smt)
      → lookup op s.utxos ≡ none
      → Serializes e
      → (s' : UtxoSet smt) × (insert_utxo sha smt op e s ≡ (ok tt, s'))
  unfolding insert_utxo
  insert_utxo_fresh op e s absent (bytes, fit) = (with_entry sha smt op e bytes s, rw (absent, fit))

  pub remove_utxo_found :
      (op : OutPoint) (s : UtxoSet smt) → (remove_utxo sha smt op s).0 ≡ lookup op s.utxos
  unfolding remove_utxo
  remove_utxo_found op s = ground arith

  pub lookup-remove_utxo :
      (op j : OutPoint) (s : UtxoSet smt)
      → lookup j (remove_utxo sha smt op s).1.utxos
        ≡ (if outpoint_eq op j then none else lookup j s.utxos)
  unfolding remove_utxo without_entry
  lookup-remove_utxo op j s = ground (arith, lookup-remove op j s.utxos, outpoint_eq_iff op j)
