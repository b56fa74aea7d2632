-- ===== src/Util.antt =====
-- util.c and util.h: the table of numbers in use, UTF-8 decoding, little-endian fields.
pub mod NumTab
pub mod Utf8
pub mod Bytes
mod Tests
