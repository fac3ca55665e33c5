-- ===== src/Types/Block.antt =====
-- types/block.rs: block headers and blocks, and their wire formats.
pub mod Encode
pub mod Decode
pub mod RoundTrip
unfoldable pub use Encode.*
unfoldable pub use Decode.*
