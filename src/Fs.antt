-- ===== src/Fs.antt =====
-- fs.c and fs.h: the 9P file system client, on top of the c9 library.
pub mod Output
pub mod Input
pub mod State
pub mod Tags
pub mod Wait
pub mod Dispatch
pub mod Requests
mod Tests
