-- ===== src/Types/Transaction.antt =====
-- types/transaction.rs: transactions, their wire format in both directions, their identifiers.
pub mod Data
pub mod Encode
pub mod Decode
pub mod RoundTrip
unfoldable pub use Data.*
unfoldable pub use Encode.*
unfoldable pub use Decode.*
