-- ===== src/Pci.antt =====
-- The PCI configuration space, kernel/pci.cpp.
pub mod Config
pub mod Bars
pub mod Space
pub mod Restore
pub mod Sizes
pub mod Probe
pub mod Search
pub mod Measured
pub mod Depth
pub mod Complete
mod Tests
