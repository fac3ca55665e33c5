-- ===== src/Examples/Types.antt =====
-- The theorems on the wire formats and the amounts, at concrete inputs.
use exfer.Common.{
  ◌-◌, ◌^◌, ◌≡◌, refl, arith, none, some, [], ◌∷◌, ◌++◌, Bytes, length, replicate, ok, err, Result,
}
use exfer.Types.Transaction.{
  IsWire, serialize, deserialize, serialize_output, deserialize_output, output_cursor, varbytes,
  deserialize_varbytes, optional, optional_body, serialize_header, serialize_body,
  serialize_witness, serialize_all, serialize_varbytes, serialize_optional, serialize_optional_hash,
  serialize_input, TxOutput,
}
use exfer.Types.Transaction.RoundTrip.{deserialize-serialize}
use exfer.Types.Block.{
  Block, IsWireBlock, serialize_block, deserialize_block, serialize_block_header,
}
use exfer.Types.Block.RoundTrip.{deserialize_block-serialize_block}
use exfer.Types.Cursor.{need, slice, word, byte, sub_slice, invalid_data, datum_size}
use exfer.Types.Merkle.{merkle_root, merkle_root-last}
use exfer.Types.Hash.{zero_hash}
use exfer.Examples.Toy.{toy_sha, spending, coinbase}

abbrev bytes_of : {E : Type 0} → Result Bytes E → Bytes
bytes_of (ok bs) = bs
bytes_of (err e) = []

spending-IsWire : IsWire spending
spending-IsWire = record {
  inputs = (record { prev = refl; index = omega arith }, tt);
  outputs = (
    record { value = omega arith; datum = tt; datum_hash = tt },
    (record { value = omega arith; datum = omega arith; datum_hash = refl }, tt),
  );
  witnesses = (omega arith, tt);
  paired = refl;
}

spending_written : serialize spending ≡ ok (bytes_of (serialize spending))
unfolding serialize serialize_header serialize_body serialize_all serialize_input serialize_output
    serialize_witness serialize_varbytes serialize_optional serialize_optional_hash
spending_written = refl

deserialize-serialize_example :
    deserialize (bytes_of (serialize spending) ++ (1 ∷ 2 ∷ []))
    ≡ ok (spending, length (bytes_of (serialize spending)))
deserialize-serialize_example =
    deserialize-serialize spending (bytes_of (serialize spending)) (1 ∷ 2 ∷ []) spending-IsWire
      spending_written

abbrev one_block : Block
one_block = record {
  header = record {
    version = 1;
    height = 5;
    prev_block_id = replicate 32 2;
    timestamp = 1_700_000_000;
    difficulty_target = 1 ∷ replicate 31 0;
    nonce = 2 ^ 64 - 1;
    tx_root = replicate 32 8;
    state_root = replicate 32 9;
  };
  transactions = coinbase ∷ spending ∷ [];
}

one_block-IsWireBlock : IsWireBlock one_block
one_block-IsWireBlock = record {
  header = record {
    version = omega arith;
    height = omega arith;
    prev_block_id = refl;
    timestamp = omega arith;
    difficulty_target = refl;
    nonce = omega arith;
    tx_root = refl;
    state_root = refl;
  };
  few = omega arith;
  transactions = (
    record {
      inputs = (record { prev = refl; index = omega arith }, tt);
      outputs = (record { value = omega arith; datum = tt; datum_hash = tt }, tt);
      witnesses = (tt, tt);
      paired = refl;
    },
    (spending-IsWire, tt),
  );
}

one_block_written : serialize_block one_block ≡ ok (bytes_of (serialize_block one_block))
unfolding serialize_block serialize serialize_header serialize_body serialize_all serialize_input
    serialize_output serialize_witness serialize_varbytes serialize_optional serialize_optional_hash
    serialize_block_header
one_block_written = refl

deserialize_block-serialize_block_example :
    deserialize_block (bytes_of (serialize_block one_block) ++ [])
    ≡ ok (one_block, length (bytes_of (serialize_block one_block)))
deserialize_block-serialize_block_example =
    deserialize_block-serialize_block one_block (bytes_of (serialize_block one_block)) []
      one_block-IsWireBlock one_block_written

-- A datum of 4097 bytes is written, and is not read back.
abbrev large_datum : TxOutput
large_datum = record {
  value = 300;
  script = [];
  datum = some (replicate 4097 0);
  datum_hash = none;
}

large_datum_written : (bytes : Bytes) × (serialize_output large_datum ≡ ok bytes)
unfolding serialize_output serialize_varbytes serialize_optional serialize_optional_hash
large_datum_written = (bytes_of (serialize_output large_datum), refl)

large_datum_refused :
    deserialize_output (bytes_of (serialize_output large_datum))
    ≡ err (invalid_data (datum_size 4097))
unfolding serialize_output serialize_varbytes serialize_optional serialize_optional_hash
    deserialize_output output_cursor varbytes deserialize_varbytes need slice word byte sub_slice
    optional optional_body
large_datum_refused = refl

merkle_root-last_example :
    merkle_root toy_sha [] (zero_hash ∷ replicate 32 2 ∷ replicate 32 1 ∷ [])
    ≡ merkle_root toy_sha [] (zero_hash ∷ replicate 32 2 ∷ replicate 32 1 ∷ replicate 32 1 ∷ [])
merkle_root-last_example =
    merkle_root-last toy_sha [] zero_hash (replicate 32 2) [] (replicate 32 1) refl
