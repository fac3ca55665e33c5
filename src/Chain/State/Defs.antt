-- ===== src/Chain/State/Defs.antt =====
-- chain/state.rs: the UTXO set with its script index, and its single-entry operations.
use exfer.Common.{
  bytes_eq_refl, ℕ, ◌≡◌, arith, Bool, true, ◌&&◌, ◌↔◌, Option, none, some, List, [], ◌∷◌, Bytes,
  ltb, ◌==◌, bytes_eq, bytes_eq_iff, if◌then◌else◌, ok, err,
}
use exfer.Common.Map.{Map, Set, Key, lookup, insert, remove, contains, bytes_before, bytes_key}
use exfer.Common.Exec.{Exec}
use exfer.Types.Hash.{Hash256, Sha}
use exfer.Types.Cursor.{SerError}
use exfer.Types.Transaction.{OutPoint, TxOutput, serialize_output}
use exfer.Chain.Index.{index, unindex}
use exfer.Chain.Smt.{Smt, leaf_key, leaf_value}

-- `OutPoint` derives `Eq` and `Ord`: by transaction, then by index.
unfoldable pub outpoint_eq : OutPoint → OutPoint → Bool
outpoint_eq a b = bytes_eq a.tx_id b.tx_id && a.output_index == b.output_index

pub outpoint_eq_refl : (a : OutPoint) → outpoint_eq a a ≡ true
unfolding outpoint_eq
outpoint_eq_refl a = ground (arith, bytes_eq_refl a.tx_id)

pub outpoint_eq_iff : (a b : OutPoint) → (outpoint_eq a b ≡ true) ↔ (a ≡ b)
unfolding outpoint_eq
outpoint_eq_iff a b =
    (λ h. ground (arith, bytes_eq_iff a.tx_id b.tx_id), λ e. rw (← e) (outpoint_eq_refl a))

unfoldable pub outpoint_before : OutPoint → OutPoint → Bool
outpoint_before a b =
    if bytes_eq a.tx_id b.tx_id
    then ltb a.output_index b.output_index
    else bytes_before a.tx_id b.tx_id

instance abbrev pub outpoint_key : Key OutPoint
outpoint_key = record { beq = outpoint_eq; beq_iff = outpoint_eq_iff; before = outpoint_before }

pub record UtxoEntry : Type 0 where
  pub output : TxOutput
  pub height : ℕ
  pub is_coinbase : Bool

pub data StateError : Type 0 where
  input_not_found : OutPoint → StateError
  output_not_found : OutPoint → StateError
  duplicate_restore : OutPoint → StateError
  duplicate_outpoint : OutPoint → StateError
  serialization : SerError → StateError
  incomplete_undo : ℕ → ℕ → StateError

pub data UtxoMutation : Type 0 where
  inserted : OutPoint → UtxoEntry → UtxoMutation
  removed : OutPoint → UtxoEntry → UtxoMutation

-- `UtxoMutation::collect_spent_utxos`
unfoldable pub collect_spent_utxos : List UtxoMutation → List (OutPoint × UtxoEntry)
collect_spent_utxos [] = []
collect_spent_utxos (removed op e ∷ ms) = (op, e) ∷ collect_spent_utxos ms
collect_spent_utxos (inserted op e ∷ ms) = collect_spent_utxos ms

module _ (smt : Smt) where
  pub record UtxoSet : Type 0 where
    pub utxos : Map OutPoint UtxoEntry
    pub tree : smt.Tree
    pub by_script : Map Bytes (Set OutPoint)

  unfoldable pub new : UtxoSet
  new = record { utxos = []; tree = smt.empty; by_script = [] }

  unfoldable pub get : OutPoint → UtxoSet → Option UtxoEntry
  get op s = lookup op s.utxos

  unfoldable pub state_root : UtxoSet → Hash256
  state_root s = smt.root s.tree

module _ (sha : Sha) (smt : Smt) where
  -- The writes of `UtxoSet::insert`, and those of `UtxoSet::remove`.
  unfoldable pub with_entry : OutPoint → UtxoEntry → Bytes → UtxoSet smt → UtxoSet smt
  with_entry op entry bytes s = record s {
    utxos = insert op entry s.utxos;
    tree =
        smt.insert (leaf_key sha op.tx_id op.output_index)
          (leaf_value sha bytes entry.height entry.is_coinbase) s.tree;
    by_script = index entry.output.script op s.by_script;
  }

  unfoldable pub without_entry : OutPoint → UtxoEntry → UtxoSet smt → UtxoSet smt
  without_entry op entry s = record s {
    utxos = remove op s.utxos;
    tree = smt.remove (leaf_key sha op.tx_id op.output_index) s.tree;
    by_script = unindex entry.output.script op s.by_script;
  }

  -- `UtxoSet::insert`: both errors come before the first write.
  unfoldable pub insert_utxo : OutPoint → UtxoEntry → Exec (UtxoSet smt) (Unit {0}) StateError
  insert_utxo op entry s =
      if contains op s.utxos
      then (err (duplicate_outpoint op), s)
      else elim (serialize_output entry.output) [
        | err e ↦ (err (serialization e), s)
        | ok bytes ↦ (ok tt, with_entry op entry bytes s)
      ]

  -- `UtxoSet::remove`
  unfoldable pub remove_utxo : OutPoint → UtxoSet smt → Option UtxoEntry × UtxoSet smt
  remove_utxo op s = elim (lookup op s.utxos) [
    | none ↦ (none, s)
    | some entry ↦ (some entry, without_entry op entry s)
  ]
