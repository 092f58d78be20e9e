-- ===== src/Net/Dhcp.antt =====
-- The DHCP client of attos/net/tftp.cpp (`dhcp_handler`, `do_dhcp`).
pub mod Reply
pub mod Handler
pub mod Options
pub mod Lease
pub mod Handshake
pub mod Unknown
mod Tests
