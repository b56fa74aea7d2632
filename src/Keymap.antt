-- ===== src/Keymap.antt =====
-- keymap.c: the XKB keymap written from the lines of /dev/kbmap.
pub mod Tables
pub mod Runes
pub mod Lookup
pub mod Names
pub mod Text
pub mod Table
pub mod Write
pub mod Stdin
pub mod Capacity
pub mod Added
pub mod Complete
mod Tests
