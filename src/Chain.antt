-- ===== src/Chain.antt =====
-- chain/: fork choice and the UTXO set.
pub mod ForkChoice
pub mod Index
pub mod Smt
pub mod State
