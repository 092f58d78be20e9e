-- ===== src/Ethernet.antt =====
-- The driver of Intel network controllers, kernel/i825x.cpp.
pub mod Receive
pub mod Ring
pub mod Transmit
pub mod Reset
pub mod Reception
pub mod Sending
pub mod Late
mod Tests
