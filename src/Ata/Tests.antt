-- ===== src/Ata/Tests.antt =====
-- The driver of kernel/ata.cpp on a drive whose registers keep what is written.
use attos.Common.{
  ℕ, ◌<◌, ◌≡◌, refl, ◌==◌, true, if◌then◌else◌, Option, none, some, List, [], ◌∷◌, ◌++◌, arith,
  replicate,
}
use attos.Ata.Device.{Ports, DeviceInfo, read_sector, wait_rounds, ata_string}
use attos.Ata.Reading.{IsLatched, IsAddressed, read_sector-IsAddressed}
use attos.Ata.Strings.{ata_string-stored}

-- Ready, with data.
abbrev plain_ports : Ports (ℕ → ℕ)
plain_ports = record {
  in_byte = λ s port. (0x48, s);
  out_byte = λ s port value k. if k == port then value else s k;
  in_words = λ s port count. (0x55 ∷ 0xAA ∷ [], s);
}

plain_ports-IsLatched : IsLatched plain_ports (λ s k. s k)
plain_ports-IsLatched = record {
  same = λ s port value. ground arith;
  other = λ s port value k apart. ground (arith, apart);
  byte_read = λ s port k. refl;
  words_read = λ s port count k. refl;
}

abbrev primary_slave : DeviceInfo
primary_slave = record {
  first_command_block_register = 0x1F0;
  control_block_register = 0x3F6;
  slave = true;
}

abbrev result_of : Option (List ℕ × (ℕ → ℕ)) → ℕ → ℕ
result_of none = λ k. 0
result_of (some (sector, s)) = s

abbrev after_read : ℕ → ℕ
after_read = result_of (read_sector plain_ports primary_slave 0x2000000 (λ k. 0) 0x1234567)

sector_read :
    read_sector plain_ports primary_slave 0x2000000 (λ k. 0) 0x1234567
    ≡ some (0x55 ∷ 0xAA ∷ [], after_read)
unfolding read_sector wait_rounds
sector_read = refl

read_sector-IsAddressed_example :
    (0x1234567 < 0x2000000)
    × IsAddressed plain_ports primary_slave (λ s k. s k) plain_ports-IsLatched after_read 0x1234567
read_sector-IsAddressed_example =
    read_sector-IsAddressed plain_ports primary_slave (λ s k. s k) plain_ports-IsLatched 0x2000000
      0x1234567 (λ k. 0) after_read (0x55 ∷ 0xAA ∷ []) sector_read

ata_string-stored_example :
    ata_string 4 ((0x42 ∷ 0x41 ∷ 0x20 ∷ 0x20 ∷ []) ++ 0x20 ∷ [])
    ≡ ((0x41 ∷ []) ++ 0x42 ∷ []) ++ (replicate 2 0 ++ 0 ∷ [])
ata_string-stored_example =
    ata_string-stored ((0x41, 0x42) ∷ (0x20, 0x20) ∷ []) (0x41 ∷ []) (0x20 ∷ []) 0x42 2
      (λ e. omega (arith, e)) refl
