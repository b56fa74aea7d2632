-- ===== src/Compositor.antt =====
-- wl9.c: the Wayland compositor.
pub mod Focus
pub mod Surface
pub mod Keyboard
pub mod Pointer
pub mod Draw
pub mod Options
pub mod Snarf
pub mod Control
mod Tests
