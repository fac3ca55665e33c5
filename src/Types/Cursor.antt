-- ===== src/Types/Cursor.antt =====
-- Readers over a byte slice with the running position of the deserializers in types/, and the two
-- directions in which a reader fits an encoding: what it reads back, and what it takes.
mod Defs
mod ReadBack
unfoldable pub use Defs.*
pub use ReadBack.*
