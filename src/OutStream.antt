-- ===== src/OutStream.antt =====
-- The formatted output of attos/out_stream.h and attos/out_stream.cpp.
pub mod Format
pub mod Number
pub mod Hex
pub mod Dump
pub mod Rows
mod Tests
