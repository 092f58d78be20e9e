-- ===== src/Net/Tftp.antt =====
-- The TFTP client of attos/net/tftp.h and attos/net/tftp.cpp: packets, reader and writer.
pub mod Codec
pub mod Op
pub mod Reader
pub mod Writer
pub mod Exchange
pub mod Largest
mod Tests
