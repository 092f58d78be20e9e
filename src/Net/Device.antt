-- ===== src/Net/Device.antt =====
-- The state of `ipv4_ethernet_device` (attos/net/tftp.cpp): its address, its configuration, the
-- ARP table and the open UDP sockets.
use attos.Common.{ℕ, ◌-◌, ◌*◌, ◌+◌, ◌^◌, ◌==◌, ◌!=◌, ◌&&◌, List}
use attos.Net.Wire.{Bytes, Mac, Result, ok, require, ◌>>◌}

-- An `ipv4_address` is its host number; these are 0.0.0.0 and 255.255.255.255.
abbrev pub inaddr_any : ℕ
inaddr_any = 0

abbrev pub inaddr_broadcast : ℕ
inaddr_broadcast = 2 ^ 32 - 1

-- `ipv4_address(a, b, c, d)`
abbrev pub ipv4_address : ℕ → ℕ → ℕ → ℕ → ℕ
ipv4_address a b c d = a * 2 ^ 24 + b * 2 ^ 16 + c * 2 ^ 8 + d

pub record NetConfig : Type 0 where
  pub addr : ℕ
  pub netmask : ℕ
  pub gateway : ℕ

abbrev pub config_none : NetConfig
config_none = record { addr = inaddr_any; netmask = inaddr_any; gateway = inaddr_any }

pub record ArpEntry : Type 0 where
  pub pa : ℕ
  pub ha : Mac

pub record Socket : Type 0 where
  pub addr : ℕ
  pub port : ℕ

pub record Device : Type 0 where
  pub hw : Mac
  pub config : NetConfig
  pub arp_entries : List ArpEntry
  pub sockets : List Socket

-- What the device does to the outside: a frame to the Ethernet device, data to a socket's function.
pub data Event : Type 0 where
  sent : Bytes → Event
  received : Socket → Bytes → Event

-- The two-argument `ipv4_config`: once, and to a usable address.
unfoldable pub set_config : Device → NetConfig → Result Device
set_config d c = do
  require (d.config.addr == inaddr_any)
  require (c.addr != inaddr_any && c.addr != inaddr_broadcast)
  require (c.netmask != inaddr_any)
  ok (record d { config = c })
