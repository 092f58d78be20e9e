-- ===== src/Net.antt =====
-- The network stack: attos/net/net.h, attos/net/net.cpp, attos/net/tftp.h and attos/net/tftp.cpp.
pub mod Wire
pub mod Device
pub mod Arp
pub mod Ipv4
pub mod Sockets
pub mod Frames
pub mod Checksum
pub mod Delivery
pub mod Bounds
pub mod Ports
pub mod Resolution
mod Tests
pub mod Dhcp
pub mod Tftp
