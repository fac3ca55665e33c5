-- ===== src/Types/Transaction/Data.antt =====
-- types/transaction.rs: the structs, and what the wire format can hold.
use exfer.Common.{
  ℕ, ◌≤◌, ◌≡◌, Bool, false, Option, none, some, List, [], ◌∷◌, Bytes, All, length, bytes_eq, IsU32,
  IsU64,
}
use exfer.Types.Hash.{Hash256, IsHash, zero_hash}

pub record TxInput : Type 0 where
  pub prev_tx_id : Hash256
  pub output_index : ℕ

pub record TxOutput : Type 0 where
  pub value : ℕ
  pub script : Bytes
  pub datum : Option Bytes
  pub datum_hash : Option Hash256

pub record TxWitness : Type 0 where
  pub witness : Bytes
  pub redeemer : Option Bytes

pub record Transaction : Type 0 where
  pub inputs : List TxInput
  pub outputs : List TxOutput
  pub witnesses : List TxWitness

pub record OutPoint : Type 0 where
  pub tx_id : Hash256
  pub output_index : ℕ

-- types/mod.rs
abbrev pub max_datum_size : ℕ
max_datum_size = 4096

abbrev pub max_redeemer_size : ℕ
max_redeemer_size = 16384

-- `Transaction::is_coinbase`
unfoldable pub is_coinbase : Transaction → Bool
is_coinbase tx = elim tx.inputs [
  | [] ↦ false
  | input ∷ rest ↦ elim rest [ [] ↦ bytes_eq input.prev_tx_id zero_hash | _ ∷ _ ↦ false ]
]

-- Values of the Rust types: fixed widths, and sizes within the limits of the deserializers.
abbrev pub AtMost : ℕ → Option Bytes → Type 0
AtMost n none = Unit
AtMost n (some bs) = length bs ≤ n

abbrev pub IsOptionalHash : Option Hash256 → Type 0
IsOptionalHash none = Unit
IsOptionalHash (some h) = IsHash h

pub record IsInput (i : TxInput) : Type 0 where
  pub prev : IsHash i.prev_tx_id
  pub index : IsU32 i.output_index

pub record IsOutput (o : TxOutput) : Type 0 where
  pub value : IsU64 o.value
  pub datum : AtMost max_datum_size o.datum
  pub datum_hash : IsOptionalHash o.datum_hash

abbrev pub IsWitness : TxWitness → Type 0
IsWitness w = AtMost max_redeemer_size w.redeemer

-- A transaction that `Transaction::deserialize` can give back: one witness to each input.
pub record IsWire (tx : Transaction) : Type 0 where
  pub inputs : All IsInput tx.inputs
  pub outputs : All IsOutput tx.outputs
  pub witnesses : All IsWitness tx.witnesses
  pub paired : length tx.witnesses ≡ length tx.inputs
