-- ===== src/Net/Arp.antt =====
-- ARP in `ipv4_ethernet_device` (attos/net/tftp.cpp).
use attos.Common.{
  ℕ, ◌==◌, ◌&&◌, ◌||◌, Bool, true, false, not, List, [], ◌∷◌, ◌++◌, Option, none, some,
  if◌then◌else◌,
}
use attos.Net.Wire.{
  Bytes, Mac, broadcast, mac_bytes, mac_at, mac_eq, byte_at, be16_at, be32_at, be16, be32, Result,
  ok, fatal, require, ◌>>=◌, ◌>>◌,
}
use attos.Net.Device.{Device, ArpEntry, Event, sent, inaddr_any}

abbrev pub ethertype_ipv4 : ℕ
ethertype_ipv4 = 0x0800

abbrev pub ethertype_arp : ℕ
ethertype_arp = 0x0806

abbrev pub ethertype_ipv6 : ℕ
ethertype_ipv6 = 0x86dd

abbrev pub arp_request : ℕ
arp_request = 1

abbrev pub arp_reply : ℕ
arp_reply = 2

-- `arp_header`
pub record ArpHeader : Type 0 where
  pub htype : ℕ
  pub ptype : ℕ
  pub hlen : ℕ
  pub plen : ℕ
  pub oper : ℕ
  pub sha : Mac
  pub spa : ℕ
  pub tha : Mac
  pub tpa : ℕ

unfoldable pub arp_header_at : Bytes → ArpHeader
arp_header_at bs = record {
  htype = be16_at bs 0;
  ptype = be16_at bs 2;
  hlen = byte_at bs 4;
  plen = byte_at bs 5;
  oper = be16_at bs 6;
  sha = mac_at bs 8;
  spa = be32_at bs 14;
  tha = mac_at bs 18;
  tpa = be32_at bs 24;
}

unfoldable pub find_arp_entry : List ArpEntry → ℕ → Option ArpEntry
find_arp_entry [] ip = none
find_arp_entry (e ∷ es) ip = if e.pa == ip then some e else find_arp_entry es ip

-- `e->ha = ah.sha` on the entry that `find_arp_entry` points at.
unfoldable pub update_arp_entry : List ArpEntry → ℕ → Mac → List ArpEntry
update_arp_entry [] ip ha = []
update_arp_entry (e ∷ es) ip ha =
    if e.pa == ip then record e { ha = ha } ∷ es else e ∷ update_arp_entry es ip ha

-- The entry must be new.
unfoldable pub add_arp_entry : Device → ℕ → Mac → Result Device
add_arp_entry d pa ha = elim (find_arp_entry d.arp_entries pa) [
  | none ↦ ok (record d { arp_entries = d.arp_entries ++ record { pa = pa; ha = ha } ∷ [] })
  | some e ↦ fatal
]

-- The frame of `send_arp`: an `ethernet_header` and an `arp_header`.
unfoldable pub send_arp : Device → ℕ → ℕ → Mac → ℕ → Event
send_arp d oper spa tha tpa = sent (
    mac_bytes tha
    ++ (mac_bytes d.hw
        ++ (be16 ethertype_arp
            ++ (be16 1
                ++ (be16 ethertype_ipv4
                    ++ (6 ∷ 4 ∷ be16 oper
                        ++ (mac_bytes d.hw ++ (be32 spa ++ (mac_bytes tha ++ be32 tpa)))))))))

-- The check on the fields that `arp_in` begins with.
unfoldable pub arp_is_valid : ArpHeader → Bool
arp_is_valid ah =
    ah.htype == 1
    && ah.ptype == ethertype_ipv4
    && ah.hlen == 6
    && ah.plen == 4
    && (ah.oper == arp_request || ah.oper == arp_reply)
    && not (mac_eq ah.sha broadcast)

-- `merge_flag`, and the table with the sender's entry brought up to date.
unfoldable pub merge_arp : Device → ArpHeader → Bool × Device
merge_arp d ah = elim (find_arp_entry d.arp_entries ah.spa) [
  | none ↦ (false, d)
  | some e ↦ (
    true,
    if mac_eq e.ha ah.sha
        then d
        else record d { arp_entries = update_arp_entry d.arp_entries ah.spa ah.sha },
  )
]

-- `arp_in`.
unfoldable pub arp_in : Device → ArpHeader → Result (Device × List Event)
arp_in d ah = do
  require (arp_is_valid ah)
  let (merge_flag, merged) = merge_arp d ah
  let answer = if ah.oper == arp_request then send_arp d arp_reply ah.tpa ah.sha ah.spa ∷ [] else []
  let known = if merge_flag then ok merged else add_arp_entry merged ah.spa ah.sha
  if d.config.addr == inaddr_any
      then ok (d, [])
      else if d.config.addr == ah.tpa
      then (known >>= λ d'. ok (d', answer))
      else ok (merged, [])
