-- ===== src/Types.antt =====
-- types/: hashes, amounts, transactions and blocks with their wire formats.
pub mod Hash
pub mod Merkle
pub mod Amount
pub mod Cursor
pub mod Transaction
pub mod Block
