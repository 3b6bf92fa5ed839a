-- ===== src/Strings.antt =====
-- What the sources use of Rust's `str` and integer parsing and printing, on texts as byte lists.
pub mod Numbers
pub mod Parts
pub mod Case
pub mod Utf8
