-- ===== src/Chain/State/Query.antt =====
-- chain/state.rs: the queries on the set, and the snapshot for validation.
use exfer.Common.{
  ℕ, ◌+◌, ◌-◌, Bool, true, ◌&&◌, Option, none, some, List, [], ◌∷◌, Bytes, ltb, leb, if◌then◌else◌,
  saturating_add_u64,
}
use exfer.Common.Map.{Map, Set, lookup, insert, bytes_key}
use exfer.Types.Transaction.{OutPoint}
use exfer.Chain.Smt.{Smt}
use exfer.Chain.State.Defs.{UtxoEntry, UtxoSet, outpoint_key, outpoint_before}

-- `maturity` is `coinbase_maturity()`, which the process sets once.
unfoldable pub is_mature : ℕ → ℕ → UtxoEntry → Bool
is_mature maturity height e = if e.is_coinbase then leb maturity (height - e.height) else true

-- A row of `utxos_for_script`: outpoint, value, height, and whether it came from a coinbase.
pub record Row : Type 0 where
  pub outpoint : OutPoint
  pub value : ℕ
  pub height : ℕ
  pub is_coinbase : Bool

abbrev pub row_of : OutPoint → UtxoEntry → Row
row_of op e = record {
  outpoint = op;
  value = e.output.value;
  height = e.height;
  is_coinbase = e.is_coinbase;
}

-- `outpoints.range((Excluded(cursor), Unbounded))`
unfoldable pub after_cursor : OutPoint → Set OutPoint → Set OutPoint
after_cursor cursor [] = []
after_cursor cursor ((op, u) ∷ ops) =
    let rest = after_cursor cursor ops in if outpoint_before cursor op then (op, u) ∷ rest else rest

module _ (smt : Smt) where
  -- Each outpoint that the set has, with its entry.
  unfoldable pub snapshot_entries :
      List OutPoint → UtxoSet smt → Map OutPoint UtxoEntry → Map OutPoint UtxoEntry
  snapshot_entries [] s utxos = utxos
  snapshot_entries (op ∷ ops) s utxos =
      snapshot_entries ops s
        (elim (lookup op s.utxos) [ none ↦ utxos | some e ↦ insert op e utxos ])

  unfoldable pub snapshot_for_outpoints : List OutPoint → UtxoSet smt → UtxoSet smt
  snapshot_for_outpoints ops s = record {
    utxos = snapshot_entries ops s [];
    tree = smt.empty;
    by_script = [];
  }

  unfoldable pub balance_from : ℕ → ℕ → Set OutPoint → UtxoSet smt → ℕ → ℕ
  balance_from maturity height [] s total = total
  balance_from maturity height ((op, u) ∷ ops) s total =
      balance_from maturity height ops s (elim (lookup op s.utxos) [
        | none ↦ total
        | some e ↦
            if e.is_coinbase && ltb (height - e.height) maturity
            then total
            else saturating_add_u64 total e.output.value
      ])

  unfoldable pub balance_for_script : ℕ → Bytes → ℕ → UtxoSet smt → ℕ
  balance_for_script maturity script height s = elim (lookup script s.by_script) [
    | none ↦ 0
    | some ops ↦ balance_from maturity height ops s 0
  ]

  -- The loop of both listings; `count` results are there already.
  unfoldable pub rows_from : ℕ → ℕ → ℕ → ℕ → Set OutPoint → UtxoSet smt → List Row
  rows_from maturity height limit count [] s = []
  rows_from maturity height limit count ((op, u) ∷ ops) s =
      let skipped = rows_from maturity height limit count ops s in
      let more = rows_from maturity height limit (count + 1) ops s in
      elim (lookup op s.utxos) [
        | none ↦ skipped
        | some e ↦
            if is_mature maturity height e
            then row_of op e ∷ (if leb limit (count + 1) then [] else more)
            else skipped
      ]

  unfoldable pub utxos_for_script : ℕ → Bytes → ℕ → ℕ → UtxoSet smt → List Row
  utxos_for_script maturity script height limit s = elim (lookup script s.by_script) [
    | none ↦ []
    | some ops ↦ rows_from maturity height limit 0 ops s
  ]

  unfoldable pub utxos_for_script_paged :
      ℕ → Bytes → ℕ → Option OutPoint → ℕ → UtxoSet smt → List Row
  utxos_for_script_paged maturity script height after limit s = elim (lookup script s.by_script) [
    | none ↦ []
    | some ops ↦
        rows_from maturity height limit 0
          (elim after [ none ↦ ops | some cursor ↦ after_cursor cursor ops ]) s
  ]
