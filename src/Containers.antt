-- ===== src/Containers.antt =====
-- The growing array of attos/containers.h (`kvector`).
pub mod KVector
pub mod History
pub mod Erasing
pub mod Growth
mod Tests
