-- ===== src/Ata/Device.antt =====
-- `device` and `ata_string` of kernel/ata.cpp, over ports that are a parameter.
use attos.Common.{
  ℕ, zero, suc, ◌+◌, ◌*◌, ◌/◌, ◌%◌, ◌^◌, ◌==◌, ◌||◌, Bool, not, ltb, if◌then◌else◌, Option, none,
  some, ◌>>=◌, ◌>>◌, require, List, [], ◌∷◌, ◌++◌, get_or, set, take,
}

-- The ports of the machine; reading one may change its state. A word of `in_words` is two bytes.
pub record Ports (S : Type 0) : Type 0 where
  pub in_byte : S → ℕ → ℕ × S
  pub out_byte : S → ℕ → ℕ → S
  pub in_words : S → ℕ → ℕ → List ℕ × S

-- `device_info`
pub record DeviceInfo : Type 0 where
  pub first_command_block_register : ℕ
  pub control_block_register : ℕ
  pub slave : Bool

-- `port_offset`
abbrev pub data_port : ℕ
data_port = 0

abbrev pub sector_count : ℕ
sector_count = 2

abbrev pub lba_low : ℕ
lba_low = 3

abbrev pub lba_mid : ℕ
lba_mid = 4

abbrev pub lba_high : ℕ
lba_high = 5

abbrev pub drive : ℕ
drive = 6

abbrev pub command : ℕ
command = 7

-- The masks of the status.
abbrev pub is_busy : ℕ → Bool
is_busy status = status / 2 ^ 7 % 2 == 1

abbrev pub is_failed : ℕ → Bool
is_failed status = status % 2 == 1 || status / 2 ^ 5 % 2 == 1

abbrev pub is_requesting : ℕ → Bool
is_requesting status = status / 2 ^ 3 % 2 == 1

abbrev pub slave_bit : Bool → ℕ
slave_bit slave = if slave then 2 ^ 4 else 0

-- The first loop of `ata_string`: the bytes of each pair trade places.
abbrev pub swap_pairs : List ℕ → List ℕ
swap_pairs [] = []
swap_pairs (a ∷ []) = []
swap_pairs (a ∷ b ∷ rest) = b ∷ a ∷ swap_pairs rest

-- The second loop, from the character below `i` down.
unfoldable pub clear_spaces : ℕ → List ℕ → List ℕ
clear_spaces zero dst = dst
clear_spaces (suc i) dst =
    let rest = clear_spaces i (set dst i 0) in if get_or dst i 0 == 0x20 then rest else dst

-- `size` is the size of the destination without the 0 at its end.
unfoldable pub ata_string : ℕ → List ℕ → List ℕ
ata_string size src = clear_spaces size (swap_pairs (take size src) ++ 0 ∷ [])

module _ {S : Type 0} (ports : Ports S) (info : DeviceInfo) where
  abbrev pub port_number : ℕ → ℕ
  port_number port = info.first_command_block_register + port

  abbrev pub in_port : S → ℕ → ℕ × S
  in_port s port = ports.in_byte s (port_number port)

  abbrev pub out : S → ℕ → ℕ → S
  out s port value = ports.out_byte s (port_number port) value

  abbrev pub delay : ℕ → S → S
  delay zero s = s
  delay (suc n) s = delay n (ports.in_byte s info.control_block_register).1

  -- The loop of `wait_status`, with the looks that are left.
  unfoldable pub wait_rounds : ℕ → S → Option (ℕ × S)
  wait_rounds zero s = none
  wait_rounds (suc n) s =
      let look = in_port (delay 4 s) command in
      let rest = wait_rounds n look.1 in
      let done = require (not (is_failed look.0)) >> some look in
      if is_busy look.0 then rest else done

  abbrev pub wait_status : S → Option (ℕ × S)
  wait_status = wait_rounds 1000

  -- The constructor: the number of sectors of the drive.
  unfoldable pub identify : S → Option (ℕ × S)
  identify s = do
    (st1, s1) ← wait_status s
    (st2, s2) ← wait_status (out s1 drive (0xA0 + slave_bit info.slave))
    (status, s3) ← wait_status (out s2 command 0xEC)
    require (not (status == 0))
    require (is_requesting status)
    let read = ports.in_words s3 (port_number data_port) 256
    let byte : ℕ → ℕ = λ i. get_or read.0 (0x78 + i) 0
    some (byte 0 + byte 1 * 2 ^ 8 + byte 2 * 2 ^ 16 + byte 3 * 2 ^ 24, read.1)

  -- The registers of the address, and the command.
  abbrev pub address_sector : S → ℕ → S
  address_sector s lba =
      let s1 = out s drive (0xE0 + slave_bit info.slave + lba / 2 ^ 24 % 2 ^ 4) in
      let s2 = out s1 sector_count 1 in
      let s3 = out s2 lba_low (lba % 2 ^ 8) in
      let s4 = out s3 lba_mid (lba / 2 ^ 8 % 2 ^ 8) in
      let s5 = out s4 lba_high (lba / 2 ^ 16 % 2 ^ 8) in out s5 command 0x20

  unfoldable pub read_sector : ℕ → S → ℕ → Option (List ℕ × S)
  read_sector lba_count s lba = do
    require (ltb lba lba_count)
    require (lba / 2 ^ 28 == 0)
    (st1, s1) ← wait_status s
    (status, s2) ← wait_status (address_sector s1 lba)
    require (is_requesting status)
    some (ports.in_words s2 (port_number data_port) 256)
