-- ===== src/TextScreen.antt =====
-- The text screen of kernel/text_screen.cpp.
pub mod Screen
pub mod Cells
pub mod Cursor
mod Tests
