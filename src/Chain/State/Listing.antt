-- ===== src/Chain/State/Listing.antt =====
-- chain/state.rs: what a snapshot answers, and what a listing returns.
use exfer.Common.{
  ℕ, ◌+◌, ◌≤◌, ◌≡◌, refl, sym, ◌∙◌, ap, arith, Bool, true, false, ◌||◌, Option, none, some, List,
  [], ◌∷◌, Bytes, length, max, leb, if◌then◌else◌, All, Option-cases, Bool-cases, inl, inr, ◌⊎◌,
}
use exfer.Common.Map.{Map, Set, lookup, insert, lookup-insert, bytes_key}
use exfer.Types.Transaction.{OutPoint}
use exfer.Chain.Smt.{Smt}
use exfer.Chain.State.Defs.{UtxoEntry, UtxoSet, get, outpoint_key, outpoint_eq, outpoint_eq_iff}
use exfer.Chain.State.Query.{
  Row, row_of, is_mature, snapshot_entries, snapshot_for_outpoints, rows_from, utxos_for_script,
  utxos_for_script_paged, after_cursor,
}

-- `op` is one of `ops`.
unfoldable pub among : OutPoint → List OutPoint → Bool
among op [] = false
among op (j ∷ ops) = outpoint_eq j op || among op ops

lookup_same :
    (a b : OutPoint) (m : Map OutPoint UtxoEntry) → outpoint_eq a b ≡ true → lookup a m ≡ lookup b m
lookup_same a b m h = ap (λ x. lookup x m) ((outpoint_eq_iff a b).0 h)

module _ (smt : Smt) where
  lookup-snapshot_entries :
      (ops : List OutPoint) (s : UtxoSet smt) (m : Map OutPoint UtxoEntry) (op : OutPoint)
      → (lookup op m ≡ none) ⊎ (lookup op m ≡ lookup op s.utxos)
      → lookup op (snapshot_entries smt ops s m)
        ≡ (if among op ops then lookup op s.utxos else lookup op m)
  unfolding snapshot_entries among
  lookup-snapshot_entries [] s m op h = refl
  lookup-snapshot_entries (j ∷ ops) s m op h = elim (Option-cases (lookup j s.utxos)) [
    | inl absent ↦
        rw (snapshot_entries, absent)
          (ground
            (arith, lookup-snapshot_entries ops s m op h, absent, lookup_same j op s.utxos, h))
    | inr (e, there) ↦ elim (Bool-cases (outpoint_eq j op)) [
      | inl same ↦
          let here : lookup op s.utxos ≡ some e =
            ground (arith, there, same, lookup_same j op s.utxos) in
          let now : lookup op (insert j e m) ≡ some e = rw (lookup-insert j op e m, same) in
          rw (snapshot_entries, there, same)
            (ground (
              arith,
              lookup-snapshot_entries ops s (insert j e m) op (inr (now ∙ sym here)),
              here,
              now,
            ))
      | inr other ↦
          let now : lookup op (insert j e m) ≡ lookup op m = rw (lookup-insert j op e m, other) in
          rw (snapshot_entries, there, other)
            (ground (arith, lookup-snapshot_entries ops s (insert j e m) op (rw now h), now))
    ]
  ]

  -- A snapshot answers for the outpoints that it was made for as the set does, and has no other.
  pub get-snapshot_for_outpoints :
      (ops : List OutPoint) (s : UtxoSet smt) (op : OutPoint)
      → get smt op (snapshot_for_outpoints smt ops s)
        ≡ (if among op ops then get smt op s else none)
  unfolding get snapshot_for_outpoints lookup
  get-snapshot_for_outpoints ops s op = lookup-snapshot_entries ops s [] op (inl refl)

  length-rows_from :
      (maturity height limit count : ℕ) (ops : Set OutPoint) (s : UtxoSet smt)
      → count + length (rows_from smt maturity height limit count ops s) ≤ max (count + 1) limit
  unfolding rows_from
  length-rows_from maturity height limit count [] s = omega arith
  length-rows_from maturity height limit count ((op, u) ∷ ops) s = ground (
    arith,
    length-rows_from maturity height limit count ops s,
    length-rows_from maturity height limit (count + 1) ops s,
  )

  -- A listing has at most `limit` rows, or one row where the limit is 0.
  pub length-utxos_for_script :
      (maturity : ℕ) (script : Bytes) (height limit : ℕ) (s : UtxoSet smt)
      → length (utxos_for_script smt maturity script height limit s) ≤ max 1 limit
  unfolding utxos_for_script
  length-utxos_for_script maturity script height limit s =
      elim (Option-cases (lookup script s.by_script)) [
        | inl absent ↦ rw (utxos_for_script, absent) (omega arith)
        | inr (ops, there) ↦
            rw (utxos_for_script, there)
              (omega (arith, length-rows_from maturity height limit 0 ops s))
      ]

  -- So has a page, wherever it starts.
  pub length-utxos_for_script_paged :
      (maturity : ℕ) (script : Bytes) (height : ℕ) (after : Option OutPoint) (limit : ℕ)
      (s : UtxoSet smt)
      → length (utxos_for_script_paged smt maturity script height after limit s) ≤ max 1 limit
  unfolding utxos_for_script_paged
  length-utxos_for_script_paged maturity script height after limit s =
      elim (Option-cases (lookup script s.by_script)) [
        | inl absent ↦ rw (utxos_for_script_paged, absent) (omega arith)
        | inr (ops, there) ↦
            rw (utxos_for_script_paged, there)
              (omega (
                arith,
                length-rows_from maturity height limit 0
                    (elim after [ none ↦ ops | some cursor ↦ after_cursor cursor ops ]) s,
              ))
      ]

  -- Row `r` shows a mature entry of the set.
  abbrev pub Shows : ℕ → ℕ → UtxoSet smt → Row → Type 0
  Shows maturity height s r =
      (e : UtxoEntry) × (lookup r.outpoint s.utxos ≡ some e)
      × (is_mature maturity height e ≡ true)
      × (r ≡ row_of r.outpoint e)

  rows_from-Shows :
      (maturity height limit count : ℕ) (ops : Set OutPoint) (s : UtxoSet smt)
      → All (Shows maturity height s) (rows_from smt maturity height limit count ops s)
  unfolding rows_from
  rows_from-Shows maturity height limit count [] s = tt
  rows_from-Shows maturity height limit count ((op, u) ∷ ops) s =
      elim (Option-cases (lookup op s.utxos)) [
        | inl absent ↦ rw (rows_from, absent) (rows_from-Shows maturity height limit count ops s)
        | inr (e, there) ↦ elim (Bool-cases (is_mature maturity height e)) [
          | inr young ↦
              rw (rows_from, there, young) (rows_from-Shows maturity height limit count ops s)
          | inl mature ↦ elim (Bool-cases (leb limit (count + 1))) [
            | inl full ↦ rw (rows_from, there, mature, full) ((e, there, mature, refl), tt)
            | inr room ↦
                rw (rows_from, there, mature, room)
                  (
                    (e, there, mature, refl),
                    rows_from-Shows maturity height limit (count + 1) ops s,
                  )
          ]
        ]
      ]

  -- Every row of a listing shows a mature entry of the set, as it is there.
  pub utxos_for_script-Shows :
      (maturity : ℕ) (script : Bytes) (height limit : ℕ) (s : UtxoSet smt)
      → All (Shows maturity height s) (utxos_for_script smt maturity script height limit s)
  unfolding utxos_for_script
  utxos_for_script-Shows maturity script height limit s =
      elim (Option-cases (lookup script s.by_script)) [
        | inl absent ↦ rw (utxos_for_script, absent) tt
        | inr (ops, there) ↦
            rw (utxos_for_script, there) (rows_from-Shows maturity height limit 0 ops s)
      ]
