-- ===== src/Types/Block/Encode.antt =====
-- types/block.rs: the structs and their serialization.
use exfer.Common.{
  ℕ, ◌%◌, ◌^◌, ◌≤◌, List, ◌++◌, Bytes, All, length, to_le, Result, ok, ◌>>=◌, IsU32, IsU64,
}
use exfer.Types.Hash.{Hash256, IsHash, Sha}
use exfer.Types.Cursor.{SerError}
use exfer.Types.Transaction.{Transaction, IsWire, serialize, serialize_all}

abbrev pub header_size : ℕ
header_size = 156

pub record BlockHeader : Type 0 where
  pub version : ℕ
  pub height : ℕ
  pub prev_block_id : Hash256
  pub timestamp : ℕ
  pub difficulty_target : Hash256
  pub nonce : ℕ
  pub tx_root : Hash256
  pub state_root : Hash256

pub record IsHeader (h : BlockHeader) : Type 0 where
  pub version : IsU32 h.version
  pub height : IsU64 h.height
  pub prev_block_id : IsHash h.prev_block_id
  pub timestamp : IsU64 h.timestamp
  pub difficulty_target : IsHash h.difficulty_target
  pub nonce : IsU64 h.nonce
  pub tx_root : IsHash h.tx_root
  pub state_root : IsHash h.state_root

-- The fields stand one behind the other, at 0, 4, 12, 44, 52, 84, 92 and 124.
unfoldable pub serialize_block_header : BlockHeader → Bytes
serialize_block_header h =
    to_le 4 h.version
    ++ (to_le 8 h.height
        ++ (h.prev_block_id
            ++ (to_le 8 h.timestamp
                ++ (h.difficulty_target ++ (to_le 8 h.nonce ++ (h.tx_root ++ h.state_root))))))

module _ (sha : Sha) where
  unfoldable pub block_id : BlockHeader → Hash256
  unfolding serialize_block_header
  block_id h = sha.sha256 (serialize_block_header h)

pub record Block : Type 0 where
  pub header : BlockHeader
  pub transactions : List Transaction

unfoldable pub serialize_block : Block → Result Bytes SerError
serialize_block b = do
  txs ← serialize_all serialize b.transactions
  ok (serialize_block_header b.header ++ (to_le 4 (length b.transactions % 2 ^ 32) ++ txs))

-- types/mod.rs
abbrev pub max_block_size : ℕ
max_block_size = 4_194_304

abbrev pub min_tx_size : ℕ
min_tx_size = 50

abbrev pub max_txs : ℕ
max_txs = 83_886

pub record IsWireBlock (b : Block) : Type 0 where
  pub header : IsHeader b.header
  pub few : length b.transactions ≤ max_txs
  pub transactions : All IsWire b.transactions
