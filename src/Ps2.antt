-- ===== src/Ps2.antt =====
-- The PS/2 keyboard driver, kernel/ps2.cpp.
pub mod Buffer
pub mod Keys
pub mod Refine
pub mod Available
mod Tests
