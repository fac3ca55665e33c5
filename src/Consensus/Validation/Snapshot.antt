-- ===== src/Consensus/Validation/Snapshot.antt =====
-- consensus/validation.rs: the spent entries that are noted before a transaction is applied.
use exfer.Common.{
  ◌≡◌, ◌≢◌, refl, sym, ◌∙◌, ap, arith, Bool-cases, Option-cases, inl, inr, some, List, [], ◌∷◌,
  ◌++◌, map, All, append-nil, append_assoc, ltb, Result, ok, err, saturating_add_u64, ℕ,
}
use exfer.Common.Map.{lookup, beq_ne}
use exfer.Types.Hash.{Sha}
use exfer.Types.Transaction.{TxInput, OutPoint}
use exfer.Chain.Smt.{Smt}
use exfer.Chain.State.Defs.{
  UtxoSet, UtxoEntry, UtxoMutation, collect_spent_utxos, get, remove_utxo, outpoint_key,
}
use exfer.Chain.State.Apply.{spent_outpoint, remove_inputs}
use exfer.Chain.State.Lookup.{lookup-remove_utxo}
use exfer.Chain.State.Undo.{remove_inputs_step}
use exfer.Common.Exec.{ok_injective}
use exfer.Consensus.Validation.Distinct.{IsDistinct}
use exfer.Consensus.Validation.Apply.{
  Applied, entry_bytes, with_spent, max_spent_utxos_size, snapshot,
}

abbrev pub noted : Result Applied (ℕ × Applied) → Applied
noted (ok p) = p
noted (err e) = e.1

pub all_unit : (ops : List OutPoint) → All (λ op. Unit {0}) ops
all_unit [] = tt
all_unit (op ∷ ops) = (tt, all_unit ops)

module _ (sha : Sha) (smt : Smt) where
  -- Whatever the snapshot ends with, it has only pushed entries of the inputs.
  pub snapshot_frame :
      (P : OutPoint → Type 0) (is : List TxInput) (s : UtxoSet smt) (p : Applied)
      → All P (map spent_outpoint is)
      → (extra : List (OutPoint × UtxoEntry)) × ((noted (snapshot sha smt is s p)).spent_utxos
          ≡ p.spent_utxos ++ extra)
        × ((noted (snapshot sha smt is s p)).mutations ≡ p.mutations)
        × ((noted (snapshot sha smt is s p)).applied_count ≡ p.applied_count)
        × ((noted (snapshot sha smt is s p)).total_fees ≡ p.total_fees)
        × All P (map (λ q. q.0) extra)
  unfolding snapshot with_spent
  snapshot_frame P [] s p all = ([], sym (append-nil p.spent_utxos), refl, refl, refl, tt)
  snapshot_frame P (i ∷ is) s p all = elim (Option-cases (get smt (spent_outpoint i) s)) [
    | inl absent ↦ rw (snapshot, absent) (snapshot_frame P is s p all.1)
    | inr (e, there) ↦
        let op = spent_outpoint i in
        let size = saturating_add_u64 p.spent_utxos_bytes (entry_bytes e) in
        elim (Bool-cases (ltb max_spent_utxos_size size)) [
          | inl above ↦
              rw (snapshot, there, above) ([], sym (append-nil p.spent_utxos), refl, refl, refl, tt)
          | inr below ↦
              let (extra, spent, logs, count, fees, names) =
                snapshot_frame P is s (with_spent op e p) all.1 in
              rw (snapshot, there, below)
                (
                  (op, e) ∷ extra,
                  spent ∙ append_assoc p.spent_utxos ((op, e) ∷ []) extra,
                  logs,
                  count,
                  fees,
                  (all.0, names),
                )
        ]
  ]

  All-alike :
      (op : OutPoint) (is : List TxInput) (s s1 : UtxoSet smt)
      → All (λ j. op ≢ j) (map spent_outpoint is)
      → All (λ j. lookup j s1.utxos ≡ lookup j s.utxos) (map spent_outpoint is)
      → All
          (λ j. lookup j (remove_utxo sha smt op s1).1.utxos ≡ lookup j s.utxos)
          (map spent_outpoint is)
  All-alike op [] s s1 apart alike = tt
  All-alike op (i ∷ is) s s1 apart alike = (
    ground (
      arith,
      alike.0,
      lookup-remove_utxo sha smt op (spent_outpoint i) s1,
      beq_ne op (spent_outpoint i) apart.0,
    ),
    All-alike op is s s1 apart.1 alike.1,
  )

  -- Before `remove_inputs`, the snapshot notes what it will remove.
  pub snapshot-remove_inputs :
      (is : List TxInput) (s s1 s' : UtxoSet smt) (p p' : Applied) (ms : List UtxoMutation)
      → IsDistinct (map spent_outpoint is)
      → All (λ op. lookup op s1.utxos ≡ lookup op s.utxos) (map spent_outpoint is)
      → remove_inputs sha smt is s1 ≡ (ok ms, s')
      → snapshot sha smt is s p ≡ ok p'
      → p'.spent_utxos ≡ p.spent_utxos ++ collect_spent_utxos ms
  unfolding snapshot with_spent remove_inputs collect_spent_utxos get
  snapshot-remove_inputs [] s s1 s' p p' ms distinct alike h k =
      let no_log = (ok_injective [] ms s1 s' h).0 in
      let same : p ≡ p' = cc in rw (← same, ← no_log) (sym (append-nil p.spent_utxos))
  snapshot-remove_inputs (i ∷ is) s s1 s' p p' ms distinct alike h k =
      let op = spent_outpoint i in
      let (e, ms', there, rest, log) = remove_inputs_step sha smt i is s1 s' ms h in
      let found : get smt op s ≡ some e = sym alike.0 ∙ there in
      let size = saturating_add_u64 p.spent_utxos_bytes (entry_bytes e) in
      elim (Bool-cases (ltb max_spent_utxos_size size)) [
        | inl above ↦ absurd (cc (rw (snapshot, found, above) at k))
        | inr below ↦
            let later =
              snapshot-remove_inputs is s (remove_utxo sha smt op s1).1 s' (with_spent op e p) p'
                ms' distinct.1 (All-alike op is s s1 distinct.0 alike.1) rest
                (rw (snapshot, found, below) at k) in
            later
            ∙ append_assoc p.spent_utxos ((op, e) ∷ []) (collect_spent_utxos ms')
            ∙ ap (λ l. p.spent_utxos ++ collect_spent_utxos l) log
      ]
