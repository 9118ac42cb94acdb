-- ===== src/Text.antt =====
-- Byte strings and the parts of Rust's `str` and integer conversions that the program calls.
-- A `&[u8]` and a `String` are both the list of their bytes.
pub mod Utf8
pub mod Integer
pub mod Compare
pub mod Search
pub mod Split
pub mod Fold
pub mod Peel
pub mod Number
pub mod Lines
pub mod Sort
pub mod Set
