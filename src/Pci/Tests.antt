-- ===== src/Pci/Tests.antt =====
-- A bus with one device, which has one range of 4096 bytes.
use attos.Common.{
  ℕ, zero, suc, ◌+◌, ◌%◌, ◌^◌, ◌<◌, ◌≤◌, inl, inr, false, ◌*◌, ◌/◌, ◌≡◌, refl, List, ◌==◌, leb,
  if◌then◌else◌, some, arith,
}
use attos.Pci.Config.{
  Ports, config_address_port, read_config_dword, write_config_dword, bus_of, slot_of, func_of,
  config_area_num_dwords,
}
use attos.Pci.Bars.{
  BarInfo, bar_size_of, is_wide, measure, consume_extra, read_bar, read_bars_from, read_bars,
}
use attos.Pci.Space.{IsConfigSpace}
use attos.Pci.Probe.{
  DeviceInfo, read_config_area, probe_all, probe_header, probe_functions, probe_present, probe,
  init,
}
use attos.Pci.Depth.{area}
use attos.Pci.Complete.{IsSound, HeaderIsSound, init-Unchanged}

record Space : Type 0 where
  latch : ℕ
  values : ℕ → ℕ

abbrev stick : ℕ → ℕ → ℕ
stick a v = if a == 0x80000010 then v / 4096 * 4096 else v

abbrev cell : Space → ℕ → ℕ
cell s a = stick a (s.values a)

abbrev ports : Ports Space
ports = record {
  outdword = λ s port v.
      if port == config_address_port
      then record s { latch = v }
      else record s { values = λ b. if b == s.latch then v else s.values b };
  indword = λ s port. cell s s.latch;
}

stick-stick : (a v : ℕ) → stick a (stick a v) ≡ stick a v
stick-stick a v = ground arith

ports-IsConfigSpace : IsConfigSpace ports cell stick
ports-IsConfigSpace = record {
  selects = λ s a b. refl;
  reads = λ s a. refl;
  writes = λ s addr reg v is lo hi. (ground arith, λ b n. ground (arith, n));
  kept = λ s addr reg is lo hi.
      stick-stick (0x80000000 + addr + reg * 4) (s.values (0x80000000 + addr + reg * 4));
}

abbrev one_device : Space
one_device = record {
  latch = 0;
  values = λ a.
      if a == 0x80000000
      then 0x100E8086
      else if a == 0x80000010
      then 0xF0000000
      else if leb a 0x800000FF
      then 0
      else 0xFFFFFFFF;
}

bars_read : (s' : Space) × (bars : List BarInfo) × (read_bars ports 0 one_device ≡ some (s', bars))
unfolding read_bars read_bars_from read_bar measure consume_extra read_config_dword
    write_config_dword is_wide bar_size_of
bars_read = (_, _, refl)

bus_searched : (s' : Space) × (ds : List DeviceInfo) × (init ports 1 one_device ≡ some (s', ds))
unfolding init probe_all probe probe_present probe_header probe_functions read_config_area read_bars
    read_bars_from read_bar measure consume_extra read_config_dword write_config_dword is_wide
    bar_size_of bus_of slot_of func_of
bus_searched = (_, _, refl)

narrow_bar : (i : ℕ) → i < 6 → is_wide (cell one_device (0x80000000 + 0 + (4 + i) * 4)) ≡ false
unfolding is_wide
narrow_bar zero lt = refl
narrow_bar (suc zero) lt = refl
narrow_bar (suc (suc zero)) lt = refl
narrow_bar (suc (suc (suc zero))) lt = refl
narrow_bar (suc (suc (suc (suc zero)))) lt = refl
narrow_bar (suc (suc (suc (suc (suc zero))))) lt = refl
narrow_bar (suc (suc (suc (suc (suc (suc i)))))) lt = absurd (omega arith)

nothing_there :
    (addr : ℕ) → 256 ≤ addr → cell one_device (0x80000000 + addr + 0 * 4) % 2 ^ 16 ≡ 0xffff
nothing_there addr le = ground arith

first_device :
    HeaderIsSound ports cell stick ports-IsConfigSpace
      (cell one_device)
      0
      (area (cell one_device) 0 0 config_area_num_dwords)
first_device = inl (refl, λ i lt wide. absurd (ground (arith, wide, narrow_bar i lt)))

one_device-IsSound : IsSound ports cell stick ports-IsConfigSpace (cell one_device)
one_device-IsSound zero is = inr first_device
one_device-IsSound (suc addr) (small, aligned) =
    inl (nothing_there (suc addr) (omega (arith, aligned)))

init-Unchanged_example :
    (s' : Space) × (ds : List DeviceInfo) × (init ports 512 one_device ≡ some (s', ds))
    × ((a : ℕ) → cell s' a ≡ cell one_device a)
init-Unchanged_example =
    init-Unchanged ports cell stick ports-IsConfigSpace one_device one_device-IsSound
