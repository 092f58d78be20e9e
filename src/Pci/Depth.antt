-- ===== src/Pci/Depth.antt =====
-- How deep the search for devices of kernel/pci.cpp goes, and the configuration area of a device.
use attos.Common.{
  ℕ, zero, suc, ◌+◌, ◌-◌, ◌*◌, ◌/◌, ◌%◌, ◌^◌, ◌≤◌, ◌<◌, ◌≡◌, List, [], ◌∷◌, ◌==◌, if◌then◌else◌,
  arith, false,
}
use attos.Pci.Config.{bus_of, slot_of, func_of, config_address}
use attos.Pci.Probe.{other_functions, slots}

-- How deep the search can go from an address on: through the buses behind it, and to the other functions.
abbrev pub depth : ℕ → ℕ
depth addr = 2 * (255 - bus_of addr) + (if func_of addr == 0 then 1 else 0)

abbrev pub AllBelow : ℕ → List ℕ → Type 0
AllBelow fuel [] = Unit {0}
AllBelow fuel (addr ∷ addrs) = (depth addr < fuel) × AllBelow fuel addrs

pub slots-AllBelow :
    (bus n fuel : ℕ) → bus < 256 → n ≤ 32 → 2 * (255 - bus) + 1 < fuel → AllBelow fuel (slots bus n)
unfolding bus_of func_of
slots-AllBelow bus zero fuel lt le enough = tt
slots-AllBelow bus (suc n) fuel lt le enough =
    let same : (bus * 2 ^ 16 + (31 - n) * 2 ^ 11) / 2 ^ 16 % 2 ^ 8 ≡ bus = omega arith in
    let first : (bus * 2 ^ 16 + (31 - n) * 2 ^ 11) / 2 ^ 8 % 2 ^ 3 ≡ 0 = omega arith in
    (rw (same, first) enough, slots-AllBelow bus n fuel lt (omega arith) enough)

pub others-AllBelow :
    (addr n fuel : ℕ)
    → n ≤ 7
    → 2 * (255 - bus_of addr) < fuel
    → AllBelow fuel (other_functions addr n)
unfolding bus_of func_of slot_of
others-AllBelow addr zero fuel le enough = tt
others-AllBelow addr (suc n) fuel le enough =
    let bus : ℕ = addr / 2 ^ 16 % 2 ^ 8 in
    let slot : ℕ = addr / 2 ^ 11 % 2 ^ 5 in
    let other : ℕ = bus * 2 ^ 16 + slot * 2 ^ 11 + (7 - n) * 2 ^ 8 in
    let same : other / 2 ^ 16 % 2 ^ 8 ≡ bus = omega arith in
    let later : (other / 2 ^ 8 % 2 ^ 3 == 0) ≡ false = ground arith in
    (rw (same, later) (omega (arith, enough)), others-AllBelow addr n fuel (omega arith) enough)

-- The double words of a configuration area.
abbrev pub area : (ℕ → ℕ) → ℕ → ℕ → ℕ → List ℕ
area c addr reg zero = []
area c addr reg (suc n) = c (config_address addr reg) ∷ area c addr (suc reg) n
