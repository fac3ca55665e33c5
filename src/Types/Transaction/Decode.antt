-- ===== src/Types/Transaction/Decode.antt =====
-- types/transaction.rs: deserialization, each function from the front of its slice.
use exfer.Common.{
  ℕ, ◌+◌, ◌*◌, ◌-◌, Option, none, some, Bytes, length, ltb, ◌==◌, if◌then◌else◌, Result, ok, err,
}
use exfer.Types.Hash.{Hash256}
use exfer.Types.Cursor.{
  Reason, has_datum_flag, datum_size, has_datum_hash_flag, has_redeemer_flag, redeemer_size,
  SerError, unexpected_eof, invalid_data, Cursor, ◌>>=◌, ◌>>◌, pure, fail, need, slice, word, byte,
  sub_slice, repeat,
}
use exfer.Types.Transaction.Data.{
  TxInput, TxOutput, TxWitness, Transaction, max_datum_size, max_redeemer_size,
}

unfoldable pub varbytes : Cursor Bytes
varbytes = do need 2; len ← word 2; need len; slice len

unfoldable pub deserialize_varbytes : Bytes → Result (Bytes × ℕ) SerError
unfolding varbytes
deserialize_varbytes bytes = varbytes bytes 0

unfoldable pub input_cursor : Cursor TxInput
input_cursor = do
  need 36
  prev_tx_id ← slice 32
  output_index ← word 4
  pure (record { prev_tx_id = prev_tx_id; output_index = output_index })

unfoldable pub deserialize_input : Bytes → Result (TxInput × ℕ) SerError
unfolding input_cursor
deserialize_input bytes = input_cursor bytes 0

-- What follows a presence flag: nothing at 0, varbytes of a bounded size at 1.
unfoldable pub optional_body : ℕ → (ℕ → Reason) → (ℕ → Reason) → ℕ → Cursor (Option Bytes)
optional_body max_size flag size flag_byte =
    if ltb 1 flag_byte
    then fail (invalid_data (flag flag_byte))
    else if flag_byte == 1
    then (do
      body ← sub_slice deserialize_varbytes
      if ltb max_size (length body)
          then fail (invalid_data (size (length body)))
          else pure (some body))
    else pure none

unfoldable pub optional : ℕ → (ℕ → Reason) → (ℕ → Reason) → Cursor (Option Bytes)
optional max_size flag size = do flag_byte ← byte; optional_body max_size flag size flag_byte

unfoldable pub optional_hash_body : ℕ → Cursor (Option Hash256)
optional_hash_body flag_byte =
    if ltb 1 flag_byte
    then fail (invalid_data (has_datum_hash_flag flag_byte))
    else if flag_byte == 1
    then (do need 32; h ← slice 32; pure (some h))
    else pure none

unfoldable pub optional_hash : Cursor (Option Hash256)
optional_hash = do flag_byte ← byte; optional_hash_body flag_byte

unfoldable pub output_cursor : Cursor TxOutput
output_cursor = do
  need 8
  value ← word 8
  script ← sub_slice deserialize_varbytes
  datum ← optional max_datum_size has_datum_flag datum_size
  datum_hash ← optional_hash
  pure (record { value = value; script = script; datum = datum; datum_hash = datum_hash })

unfoldable pub deserialize_output : Bytes → Result (TxOutput × ℕ) SerError
unfolding output_cursor
deserialize_output bytes = output_cursor bytes 0

unfoldable pub witness_cursor : Cursor TxWitness
witness_cursor = do
  witness ← sub_slice deserialize_varbytes
  redeemer ← optional max_redeemer_size has_redeemer_flag redeemer_size
  pure (record { witness = witness; redeemer = redeemer })

unfoldable pub deserialize_witness : Bytes → Result (TxWitness × ℕ) SerError
unfolding witness_cursor
deserialize_witness bytes = witness_cursor bytes 0

-- The counts are below 2 ^ 16, so that the saturating products of the source do not saturate.
abbrev pub min_needed : ℕ → ℕ → ℕ
min_needed input_count output_count = input_count * 36 + output_count * 12 + input_count * 3

-- `if remaining < min_needed { return Err(UnexpectedEof) }`
unfoldable pub plausible : ℕ → ℕ → Cursor (Unit {0})
plausible input_count output_count bytes pos =
    if ltb (length bytes - pos) (min_needed input_count output_count)
    then err unexpected_eof
    else ok (tt, pos)

unfoldable pub transaction_cursor : Cursor Transaction
transaction_cursor = do
  need 4
  input_count ← word 2
  output_count ← word 2
  plausible input_count output_count
  inputs ← repeat (sub_slice deserialize_input) input_count
  outputs ← repeat (sub_slice deserialize_output) output_count
  witnesses ← repeat (sub_slice deserialize_witness) input_count
  pure (record { inputs = inputs; outputs = outputs; witnesses = witnesses })

unfoldable pub deserialize : Bytes → Result (Transaction × ℕ) SerError
unfolding transaction_cursor
deserialize bytes = transaction_cursor bytes 0
