-- ===== src/Chain/State.antt =====
-- chain/state.rs: the UTXO set, and how transactions are applied and undone.
pub mod Defs
pub mod Apply
pub mod Lookup
pub mod Outputs
pub mod Undo
pub mod Encodable
pub mod Sync
pub mod Query
pub mod Listing
