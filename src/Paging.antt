-- ===== src/Paging.antt =====
-- Page tables and the memory manager, kernel/mm.h and kernel/mm.cpp.
pub mod Address
pub mod Tables
pub mod Shape
pub mod Enter
pub mod Walk
pub mod Leaf
pub mod Reach
pub mod Round
pub mod Descent
pub mod MapPage
pub mod Unmap
pub mod Loop
pub mod Manager
pub mod Mappings
pub mod Removal
pub mod Sound
pub mod Whole
pub mod Contract
pub mod Release
pub mod RoundTrip
pub mod Changed
pub mod Pages
pub mod Fresh
mod Tests
