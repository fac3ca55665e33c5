-- ===== src/Consensus.antt =====
-- consensus/: difficulty and work, fork choice.
pub mod Digits
pub mod Difficulty
pub mod Reward
pub mod Cost
pub mod Pow
pub mod Validation
