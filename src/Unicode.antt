-- ===== src/Unicode.antt =====
-- Text: UTF-8 as the standard library of Go codes it, and driver/unicode/cesu8.
pub mod Utf8
pub mod Cesu8
