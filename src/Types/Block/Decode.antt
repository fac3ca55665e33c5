-- ===== src/Types/Block/Decode.antt =====
-- types/block.rs: deserialization.
use exfer.Common.{ℕ, ◌+◌, ◌/◌, Bytes, ltb, if◌then◌else◌, Result}
use exfer.Types.Cursor.{
  SerError, invalid_data, tx_count, Cursor, ◌>>=◌, ◌>>◌, pure, fail, need, slice, word, sub_slice,
  repeat,
}
use exfer.Types.Transaction.{deserialize}
use exfer.Types.Block.Encode.{BlockHeader, Block, header_size, max_block_size, min_tx_size}

-- From a slice of 156 bytes, field by field.
unfoldable pub block_header_cursor : Cursor BlockHeader
block_header_cursor = do
  version ← word 4
  height ← word 8
  prev_block_id ← slice 32
  timestamp ← word 8
  difficulty_target ← slice 32
  nonce ← word 8
  tx_root ← slice 32
  state_root ← slice 32
  pure (record {
    version = version;
    height = height;
    prev_block_id = prev_block_id;
    timestamp = timestamp;
    difficulty_target = difficulty_target;
    nonce = nonce;
    tx_root = tx_root;
    state_root = state_root;
  })

-- `if tx_count > MAX_BLOCK_SIZE / MIN_TX_SIZE { return Err(InvalidData) }`
unfoldable pub bounded_transactions : ℕ → Cursor Block → Cursor Block
bounded_transactions count rest =
    if ltb (max_block_size / min_tx_size) count then fail (invalid_data (tx_count count)) else rest

unfoldable pub block_cursor : Cursor Block
block_cursor = do
  need (header_size + 4)
  header ← block_header_cursor
  count ← word 4
  bounded_transactions count (do
    transactions ← repeat (sub_slice deserialize) count
    pure (record { header = header; transactions = transactions }))

unfoldable pub deserialize_block : Bytes → Result (Block × ℕ) SerError
unfolding block_cursor
deserialize_block bytes = block_cursor bytes 0
