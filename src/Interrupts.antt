-- ===== src/Interrupts.antt =====
-- Interrupts, kernel/isr.cpp: gates, the code they lead to, and the handlers of requests.
pub mod Gate
pub mod Handlers
pub mod Stub
pub mod Dispatch
mod Tests
