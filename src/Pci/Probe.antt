-- ===== src/Pci/Probe.antt =====
-- The search for devices in `manager_impl` of kernel/pci.cpp.
use attos.Common.{
  ℕ, zero, suc, ◌+◌, ◌-◌, ◌*◌, ◌/◌, ◌%◌, ◌^◌, List, [], ◌∷◌, ◌++◌, ◌==◌, ◌&&◌, if◌then◌else◌,
  Option, none, some, ◌>>=◌, ◌>>◌, require, get_or,
}
use attos.Pci.Config.{Ports, read_config_dword, bus_of, slot_of, func_of, config_area_num_dwords}
use attos.Pci.Bars.{BarInfo, read_bars}

-- `device_info`, with its configuration area as double words.
pub record DeviceInfo : Type 0 where
  pub address : ℕ
  pub config : List ℕ
  pub bars : List BarInfo

abbrev pub header_type : List ℕ → ℕ
header_type ca = get_or ca 3 0 / 2 ^ 16 % 256

abbrev pub primary_bus : List ℕ → ℕ
primary_bus ca = get_or ca 6 0 % 256

abbrev pub secondary_bus : List ℕ → ℕ
secondary_bus ca = get_or ca 6 0 / 256 % 256

-- The addresses of the functions 1 to 7 of a device, and of the 32 devices of a bus.
abbrev pub other_functions : ℕ → ℕ → List ℕ
other_functions addr zero = []
other_functions addr (suc n) =
    (bus_of addr * 2 ^ 16 + slot_of addr * 2 ^ 11 + (7 - n) * 2 ^ 8) ∷ other_functions addr n

abbrev pub slots : ℕ → ℕ → List ℕ
slots bus zero = []
slots bus (suc n) = (bus * 2 ^ 16 + (31 - n) * 2 ^ 11) ∷ slots bus n

module _ {S : Type 0} (ports : Ports S) where
  abbrev pub Found : Type 0
  Found = Option (S × List DeviceInfo)

  -- The double words of a configuration area from a register on.
  unfoldable pub read_config_area : S → ℕ → ℕ → ℕ → Option (S × List ℕ)
  read_config_area s addr reg zero = some (s, [])
  read_config_area s addr reg (suc n) = do
    (s1, dword) ← read_config_dword ports s addr reg
    (s2, dwords) ← read_config_area s1 addr (suc reg) n
    some (s2, dword ∷ dwords)

  -- The devices of a list of addresses, one after the other.
  unfoldable pub probe_all : (S → ℕ → Found) → S → List ℕ → Found
  probe_all visit s [] = some (s, [])
  probe_all visit s (addr ∷ addrs) = do
    (s1, devices) ← visit s addr
    (s2, more) ← probe_all visit s1 addrs
    some (s2, devices ++ more)

  -- By header: a device, a bridge with the bus behind it, or a header that stops the kernel.
  unfoldable pub probe_header : (S → ℕ → Found) → S → ℕ → List ℕ → Found
  probe_header visit s addr ca =
      let bars = read_bars ports addr s >>= λ r.
      some (r.0, record { address = addr; config = ca; bars = r.1 } ∷ []) in
      let behind =
        require (bus_of addr == primary_bus ca)
        >> probe_all visit s (slots (secondary_bus ca) 32) in
      if header_type ca % 4 == 0 then bars else if header_type ca % 4 == 1 then behind else none

  unfoldable pub probe_functions : (S → ℕ → Found) → S → ℕ → List ℕ → Found
  probe_functions visit s addr ca =
      let others = probe_all visit s (other_functions addr 7) in
      if func_of addr == 0 && header_type ca / 128 % 2 == 1 then others else some (s, [])

  unfoldable pub probe_present : (S → ℕ → Found) → S → ℕ → Found
  probe_present visit s addr = do
    (s1, ca) ← read_config_area s addr 0 config_area_num_dwords
    (s2, devices) ← probe_header visit s1 addr ca
    (s3, more) ← probe_functions visit s2 addr ca
    some (s3, devices ++ more)

  -- `probe`, on fuel: bridges may be behind bridges.
  unfoldable pub probe : ℕ → S → ℕ → Found
  probe zero s addr = none
  probe (suc fuel) s addr =
      let present = λ (r : S × ℕ). probe_present (probe fuel) r.0 addr in
      read_config_dword ports s addr 0 >>= λ r.
      if r.1 % 2 ^ 16 == 0xffff then some (r.0, []) else present r

  -- The constructor: bus 0.
  unfoldable pub init : ℕ → S → Found
  init fuel s = probe_all (probe fuel) s (slots 0 32)
