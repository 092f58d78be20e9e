-- ===== src/Pci/Sizes.antt =====
-- The sizes that kernel/pci.cpp computes for a bar.
use attos.Common.{ℕ, ◌+◌, ◌-◌, ◌%◌, ◌^◌, ◌<◌, ◌≡◌, arith}
use attos.Pci.Bars.{bar_size_of}

-- A memory range whose writable bits are those above a size of at least 16 is measured as that size.
pub bar_size_of_lem :
    (orig size low : ℕ)
    → orig % 2 ≡ 0
    → 0 < size
    → size % 16 ≡ 0
    → size < 2 ^ 32
    → low < 16
    → bar_size_of orig (2 ^ 32 - size + low) ≡ size
unfolding bar_size_of
bar_size_of_lem orig size low e pos m lt lo = ground arith

-- An I/O range that holds only its lower 16 bits is measured as if the upper 16 bits were part of its size.
pub bar_size_of_io :
    (orig size low : ℕ)
    → orig % 2 ≡ 1
    → 0 < size
    → size % 4 ≡ 0
    → size < 2 ^ 16
    → low < 4
    → bar_size_of orig (2 ^ 16 - size + low) ≡ 2 ^ 32 - 2 ^ 16 + size
unfolding bar_size_of
bar_size_of_io orig size low e pos m lt lo = ground arith
