-- ===== src/Pci/Config.antt =====
-- Device addresses and the access to the configuration space in kernel/pci.h and kernel/pci.cpp.
use attos.Common.{
  ℕ, ◌+◌, ◌-◌, ◌*◌, ◌/◌, ◌%◌, ◌^◌, ◌<◌, ◌≡◌, Bool, not, ◌==◌, ◌&&◌, ltb, if◌then◌else◌, Option,
  some, ◌>>=◌, ◌>>◌, require,
}

-- The two ports of the processor that the configuration space is behind.
pub record Ports (S : Type 0) : Type 0 where
  pub outdword : S → ℕ → ℕ → S
  pub indword : S → ℕ → ℕ

abbrev pub config_address_port : ℕ
config_address_port = 0xCF8

abbrev pub config_data_port : ℕ
config_data_port = 0xCFC

abbrev pub config_area_num_dwords : ℕ
config_area_num_dwords = 64

-- `device_address(bus, slot, func)`: the fields do not overlap, so that `|` is a sum.
unfoldable pub device_address : ℕ → ℕ → ℕ → Option ℕ
device_address bus slot func =
    require (ltb slot 32 && ltb func 8) >> some (bus * 2 ^ 16 + slot * 2 ^ 11 + func * 2 ^ 8)

unfoldable pub bus_of : ℕ → ℕ
bus_of address = address / 2 ^ 16 % 2 ^ 8

unfoldable pub slot_of : ℕ → ℕ
slot_of address = address / 2 ^ 11 % 2 ^ 5

unfoldable pub func_of : ℕ → ℕ
func_of address = address / 2 ^ 8 % 2 ^ 3

-- What is written to the address port; the parts do not overlap.
abbrev pub config_address : ℕ → ℕ → ℕ
config_address addr reg = 0x80000000 + addr + reg * 4

-- The addresses that `device_address` makes: eight bits each of bus, slot and function, and of the register.
abbrev pub IsAddress : ℕ → Type 0
IsAddress address = (address < 2 ^ 24) × (address % 2 ^ 8 ≡ 0)

module _ {S : Type 0} (ports : Ports S) where
  unfoldable pub read_config_dword : S → ℕ → ℕ → Option (S × ℕ)
  read_config_dword s addr reg =
      let s' = ports.outdword s config_address_port (config_address addr reg) in
      require (ltb reg config_area_num_dwords) >> some (s', ports.indword s' config_data_port)

  unfoldable pub write_config_dword : S → ℕ → ℕ → ℕ → Option S
  write_config_dword s addr reg value =
      let s' = ports.outdword s config_address_port (config_address addr reg) in
      require (ltb reg config_area_num_dwords) >> some (ports.outdword s' config_data_port value)

  -- `bus_master`: bit 2 of the command register, where it is not as it should be.
  unfoldable pub bus_master : S → ℕ → Bool → Option S
  bus_master s addr enabled = do
    (s1, orig) ← read_config_dword s addr 1
    let was_enabled = orig / 4 % 2 == 1
    let same = if enabled then was_enabled else not was_enabled
    let changed = orig - orig / 4 % 2 * 4 + (if enabled then 4 else 0)
    if same then some s1 else write_config_dword s1 addr 1 changed
