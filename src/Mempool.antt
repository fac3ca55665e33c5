-- ===== src/Mempool.antt =====
-- mempool/mempool.rs: the unconfirmed transactions.
pub mod Defs
pub mod Admit
pub mod Add
pub mod Steps
pub mod Query
pub mod Spending
pub mod Admission
pub mod Refresh
pub mod Confirmed
pub mod Selection
pub mod Ranking
pub mod Capacity
pub mod Scripts
pub mod Admitted
