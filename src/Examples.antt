-- ===== src/Examples.antt =====
-- Runs of the definitions and the theorems at concrete inputs.
mod Toy
mod Types
mod Validation
mod Smt
mod Script
mod Consensus
mod Chain
mod Undo
mod Coinbase
mod Spendable
mod Transfer
mod Whole
mod Pool
mod Mempool
