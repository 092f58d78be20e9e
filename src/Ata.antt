-- ===== src/Ata.antt =====
-- The driver of ATA disks, kernel/ata.cpp.
pub mod Device
pub mod Reading
pub mod Strings
mod Tests
