-- ===== src/Consensus/Difficulty.antt =====
-- consensus/difficulty.rs: work, retargeting and the expected difficulty of a block.
pub mod Arith
pub mod Retarget
pub mod Overlay
pub mod Addition
pub mod Limbs
pub mod Scaling
pub mod Bounds
unfoldable pub use Arith.*
unfoldable pub use Retarget.*
