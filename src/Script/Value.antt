-- ===== src/Script/Value.antt =====
-- script/value.rs: the values of scripts.
pub mod Defs
pub mod Typing
pub mod Decode
pub mod RoundTrip
