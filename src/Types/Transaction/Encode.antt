-- ===== src/Types/Transaction/Encode.antt =====
-- types/transaction.rs: serialization, and the hashes of a transaction.
use exfer.Common.{
  ℕ, ◌^◌, Option, none, some, List, [], ◌∷◌, ◌++◌, Bytes, length, ltb, byte_string, if◌then◌else◌,
  to_le, Result, ok, err, ◌>>=◌,
}
use exfer.Types.Hash.{Hash256, Sha, domain_hash}
use exfer.Types.Cursor.{SerError, invalid_data, varbytes_length, input_count, output_count}
use exfer.Types.Transaction.Data.{TxInput, TxOutput, TxWitness, Transaction, OutPoint}

-- A u16 length, little endian, and the bytes.
unfoldable pub serialize_varbytes : Bytes → Result Bytes SerError
serialize_varbytes bytes =
    if ltb (length bytes) (2 ^ 16)
    then ok (to_le 2 (length bytes) ++ bytes)
    else err (invalid_data (varbytes_length (length bytes)))

unfoldable pub serialize_input : TxInput → Bytes
serialize_input i = i.prev_tx_id ++ to_le 4 i.output_index

-- As an encoder that may fail, for the loop over all inputs.
abbrev pub encode_input : TxInput → Result Bytes SerError
encode_input i = ok (serialize_input i)

-- `match &field { Some(d) => { push(1); varbytes }, None => push(0) }`
unfoldable pub serialize_optional : Option Bytes → Result Bytes SerError
serialize_optional none = ok (0 ∷ [])
serialize_optional (some bytes) = do body ← serialize_varbytes bytes; ok (1 ∷ body)

unfoldable pub serialize_optional_hash : Option Hash256 → Bytes
serialize_optional_hash none = 0 ∷ []
serialize_optional_hash (some h) = 1 ∷ h

unfoldable pub serialize_output : TxOutput → Result Bytes SerError
serialize_output o = do
  script ← serialize_varbytes o.script
  datum ← serialize_optional o.datum
  ok (to_le 8 o.value ++ (script ++ (datum ++ serialize_optional_hash o.datum_hash)))

unfoldable pub serialize_witness : TxWitness → Result Bytes SerError
serialize_witness w = do
  body ← serialize_varbytes w.witness
  redeemer ← serialize_optional w.redeemer
  ok (body ++ redeemer)

-- `for item in items { buf.extend_from_slice(&item.serialize()?) }`
unfoldable pub serialize_all :
    {A : Type 0} → (A → Result Bytes SerError) → List A → Result Bytes SerError
serialize_all item [] = ok []
serialize_all item (x ∷ xs) =
    let rest = serialize_all item xs in do bytes ← item x; more ← rest; ok (bytes ++ more)

-- `u16::try_from(count)` with its error, and the two little-endian bytes.
unfoldable pub serialize_header : Transaction → Result Bytes SerError
serialize_header tx =
    if ltb (length tx.inputs) (2 ^ 16)
    then if ltb (length tx.outputs) (2 ^ 16)
      then ok (to_le 2 (length tx.inputs) ++ to_le 2 (length tx.outputs))
      else err (invalid_data (output_count (length tx.outputs)))
    else err (invalid_data (input_count (length tx.inputs)))

unfoldable pub serialize_body : Transaction → Result Bytes SerError
serialize_body tx = do
  inputs ← serialize_all encode_input tx.inputs
  outputs ← serialize_all serialize_output tx.outputs
  ok (inputs ++ outputs)

unfoldable pub signing_bytes : Transaction → Result Bytes SerError
signing_bytes tx = do header ← serialize_header tx; body ← serialize_body tx; ok (header ++ body)

unfoldable pub serialize : Transaction → Result Bytes SerError
serialize tx = do
  header ← serialize_header tx
  body ← serialize_body tx
  witnesses ← serialize_all serialize_witness tx.witnesses
  ok (header ++ (body ++ witnesses))

unfoldable pub serialized_size : Transaction → Result ℕ SerError
serialized_size tx = do bytes ← serialize tx; ok (length bytes)

-- The domain separators of types/mod.rs.
abbrev pub ds_sig : Bytes
ds_sig = byte_string "EXFER-SIG"

abbrev pub ds_tx : Bytes
ds_tx = byte_string "EXFER-TX"

abbrev pub ds_wtxid : Bytes
ds_wtxid = byte_string "EXFER-WTXID"

abbrev pub ds_addr : Bytes
ds_addr = byte_string "EXFER-ADDR"

module _ (sha : Sha) where
  unfoldable pub tx_id : Transaction → Result Hash256 SerError
  tx_id tx = do signing ← signing_bytes tx; ok (domain_hash sha ds_tx signing)

  unfoldable pub wtx_id : Transaction → Result Hash256 SerError
  wtx_id tx = do bytes ← serialize tx; ok (domain_hash sha ds_wtxid bytes)

  unfoldable pub pubkey_hash_from_key : Bytes → Hash256
  pubkey_hash_from_key pubkey = domain_hash sha ds_addr pubkey

  unfoldable pub new_p2pkh : ℕ → Bytes → TxOutput
  unfolding pubkey_hash_from_key
  new_p2pkh value pubkey = record {
    value = value;
    script = pubkey_hash_from_key pubkey;
    datum = none;
    datum_hash = none;
  }

-- `genesis_id` is `genesis::signature_domain()`, which the process binds once.
unfoldable pub sig_message : Hash256 → Transaction → Result Bytes SerError
sig_message genesis_id tx = do signing ← signing_bytes tx; ok (ds_sig ++ (genesis_id ++ signing))

unfoldable pub serialize_outpoint : OutPoint → Bytes
serialize_outpoint op = op.tx_id ++ to_le 4 op.output_index
