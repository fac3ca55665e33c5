-- ===== src/Consensus/Validation.antt =====
-- consensus/validation.rs: checking blocks and transactions, applying a block and undoing it.
pub mod Defs
pub mod Header
pub mod Distinct
pub mod Rules
pub mod Checks
pub mod Accepts
pub mod Median
pub mod Undo
pub mod Spent
pub mod Restored
pub mod Coinbase
pub mod Structure
pub mod OutputScript
pub mod Joined
pub mod Spendable
pub mod Witness
pub mod Transaction
pub mod Accounts
pub mod Progress
pub mod Apply
pub mod Snapshot
pub mod Corrupted
pub mod Atomic
pub mod Whole
pub mod AssumeValid
pub mod Succeeded
pub mod Replay
pub mod Unguarded
