-- ===== src/Pci/Complete.antt =====
-- That the search for devices of kernel/pci.cpp comes to its end.
use attos.Common.{
  ℕ, zero, suc, ◌+◌, ◌-◌, ◌*◌, ◌/◌, ◌%◌, ◌^◌, ◌≤◌, ◌<◌, ◌≡◌, refl, ap, sym, ◌∙◌, List, [], ◌∷◌,
  ◌++◌, ◌==◌, ◌&&◌, some, arith, Bool-cases, inl, inr, bind_runs, require_runs, subst, fun_ext,
  true, false, ◌⊎◌,
}
use attos.Pci.Config.{Ports, bus_of, func_of, config_address, IsAddress, config_area_num_dwords}
use attos.Pci.Space.{IsConfigSpace, read_config_dword_lem}
use attos.Pci.Probe.{
  DeviceInfo, header_type, primary_bus, secondary_bus, other_functions, slots, Found,
  read_config_area, probe_all, probe_header, probe_functions, probe_present, probe, init,
}
use attos.Pci.Search.{
  Unchanged, Restores, read_config_area_lem, probe_all_lem, probe_header_lem, probe_lem,
  AllAddresses, slots-AllAddresses, others-AllAddresses,
}
use attos.Pci.Measured.{read_runs, HasRanges, read_bars_runs}
use attos.Pci.Depth.{depth, AllBelow, slots-AllBelow, others-AllBelow, area}

module _ {S : Type 0} (ports : Ports S) (cell : S → ℕ → ℕ) (stick : ℕ → ℕ → ℕ)
    (space : IsConfigSpace ports cell stick) where
  -- What the kernel asks of a device or a bridge, by its configuration area; and the bus behind a bridge
  -- has a higher number than the one it is on.
  abbrev pub HeaderIsSound : (ℕ → ℕ) → ℕ → List ℕ → Type 0
  HeaderIsSound c addr ca =
      ((header_type ca % 4 ≡ 0) × HasRanges ports cell stick space c addr)
      ⊎ ((header_type ca % 4 ≡ 1)
          × (bus_of addr ≡ primary_bus ca)
          × (bus_of addr < secondary_bus ca))

  -- At every address there is nothing, or a device or bridge as the kernel asks.
  abbrev pub IsSound : (ℕ → ℕ) → Type 0
  IsSound c =
      (addr : ℕ)
      → IsAddress addr
      → (c (config_address addr 0) % 2 ^ 16 ≡ 0xffff)
        ⊎ HeaderIsSound c addr (area c addr 0 config_area_num_dwords)

  IsSound-Unchanged :
      (s s' : S) → Unchanged ports cell stick space s s' → IsSound (cell s) → IsSound (cell s')
  IsSound-Unchanged s s' same sound = subst IsSound (sym (fun_ext same)) sound

  area_runs :
      (n reg : ℕ) (s : S) (addr : ℕ)
      → reg + n ≤ 64
      → (s' : S) × (read_config_area ports s addr reg n ≡ some (s', area (cell s) addr reg n))
  unfolding read_config_area
  area_runs zero reg s addr le = (s, refl)
  area_runs (suc n) reg s addr le =
      let r = read_runs ports cell stick space s addr reg (omega arith) in
      let read = read_config_dword_lem ports cell stick space s r.0 addr reg r.1 r.2 in
      let rest = area_runs n (suc reg) r.0 addr (omega arith) in
      let same : r.1 ∷ area (cell r.0) addr (suc reg) n ≡ area (cell s) addr reg (suc n) =
        ap (λ v. v ∷ area (cell r.0) addr (suc reg) n) read.0
        ∙ ap (λ c. cell s (config_address addr reg) ∷ area c addr (suc reg) n) (fun_ext read.1) in
      (
        rest.0,
        subst (λ l. read_config_area ports s addr reg (suc n) ≡ some (rest.0, l)) same
            (bind_runs _ _ _ _ r.2 (bind_runs _ _ _ _ rest.1 refl)),
      )

  -- A search that ends at every address of less depth.
  abbrev Completes : ℕ → (S → ℕ → Found ports) → Type 0
  Completes fuel visit =
      (s : S) (addr : ℕ)
      → IsAddress addr
      → IsSound (cell s)
      → depth addr < fuel
      → (s' : S) × (ds : List DeviceInfo) × (visit s addr ≡ some (s', ds))

  probe_all_runs :
      (fuel : ℕ) (visit : S → ℕ → Found ports) (s : S) (addrs : List ℕ)
      → Completes fuel visit
      → Restores ports cell stick space visit
      → IsSound (cell s)
      → AllAddresses addrs
      → AllBelow fuel addrs
      → (s' : S) × (ds : List DeviceInfo) × (probe_all ports visit s addrs ≡ some (s', ds))
  unfolding probe_all
  probe_all_runs fuel visit s [] runs restores sound all below = (s, [], refl)
  probe_all_runs fuel visit s (addr ∷ addrs) runs restores sound (is, all) (below, rest_below) =
      let r = runs s addr is sound below in
      let kept = IsSound-Unchanged s r.0 (restores s r.0 addr r.1 is r.2) sound in
      let rest = probe_all_runs fuel visit r.0 addrs runs restores kept all rest_below in
      (rest.0, r.1 ++ rest.1, bind_runs _ _ _ _ r.2 (bind_runs _ _ _ _ rest.2 refl))

  probe_header_runs :
      (fuel : ℕ) (visit : S → ℕ → Found ports) (s : S) (addr : ℕ) (ca : List ℕ)
      → Completes fuel visit
      → Restores ports cell stick space visit
      → IsSound (cell s)
      → IsAddress addr
      → depth addr ≤ fuel
      → HeaderIsSound (cell s) addr ca
      → (s' : S) × (ds : List DeviceInfo) × (probe_header ports visit s addr ca ≡ some (s', ds))
  unfolding probe_header
  probe_header_runs fuel visit s addr ca runs restores sound is enough (inl (kind, ranges)) =
      let bars = read_bars_runs ports cell stick space s addr is ranges in
      let device : (header_type ca % 4 == 0) ≡ true = ground (arith, kind) in
      (
        bars.0,
        record { address = addr; config = ca; bars = bars.1 } ∷ [],
        rw device (bind_runs _ _ _ _ bars.2 refl),
      )
  probe_header_runs fuel visit s addr ca runs restores sound is enough (inr (kind, primary, up)) =
      let other : (header_type ca % 4 == 0) ≡ false = ground (arith, kind) in
      let bridge : (header_type ca % 4 == 1) ≡ true = ground (arith, kind) in
      let below =
        slots-AllBelow (secondary_bus ca) 32 fuel (omega arith) (omega arith)
          (omega (arith, up, enough)) in
      let rest =
        probe_all_runs fuel visit s (slots (secondary_bus ca) 32) runs restores sound
          (slots-AllAddresses (secondary_bus ca) 32 (omega arith)) below in
      (rest.0, rest.1, rw (other, bridge) (require_runs _ _ _ (ground (arith, primary)) rest.2))

  probe_functions_runs :
      (fuel : ℕ) (visit : S → ℕ → Found ports) (s : S) (addr : ℕ) (ca : List ℕ)
      → Completes fuel visit
      → Restores ports cell stick space visit
      → IsSound (cell s)
      → depth addr ≤ fuel
      → (s' : S) × (ds : List DeviceInfo) × (probe_functions ports visit s addr ca ≡ some (s', ds))
  unfolding probe_functions
  probe_functions_runs fuel visit s addr ca runs restores sound enough =
      elim (Bool-cases (func_of addr == 0 && header_type ca / 128 % 2 == 1)) [
        | inl multi ↦
            let first : (func_of addr == 0) ≡ true = ground (arith, multi) in
            let room : 2 * (255 - bus_of addr) + 1 ≤ fuel = rw first at enough in
            let rest =
              probe_all_runs fuel visit s (other_functions addr 7) runs restores sound
                (others-AllAddresses addr 7 (omega arith))
                (others-AllBelow addr 7 fuel (omega arith) (omega (arith, room))) in
            (rest.0, rest.1, rw multi rest.2)
        | inr single ↦ (s, [], rw single refl)
      ]

  probe_present_runs :
      (fuel : ℕ) (s : S) (addr : ℕ)
      → Completes fuel (probe ports fuel)
      → IsAddress addr
      → IsSound (cell s)
      → depth addr ≤ fuel
      → HeaderIsSound (cell s) addr (area (cell s) addr 0 config_area_num_dwords)
      → (s' : S) × (ds : List DeviceInfo) × (probe_present ports (probe ports fuel) s addr
          ≡ some (s', ds))
  unfolding probe_present
  probe_present_runs fuel s addr runs is sound enough header =
      let n : ℕ = config_area_num_dwords in
      let ca : List ℕ = area (cell s) addr 0 n in
      let visit : S → ℕ → Found ports = probe ports fuel in
      let restores : Restores ports cell stick space visit =
        probe_lem ports cell stick space fuel in
      let a = area_runs n 0 s addr (omega arith) in
      let same_a = read_config_area_lem ports cell stick space n 0 s a.0 addr ca a.1 in
      let sound_a = IsSound-Unchanged s a.0 same_a sound in
      let header_a : HeaderIsSound (cell a.0) addr ca =
        subst (λ c. HeaderIsSound c addr ca) (sym (fun_ext same_a)) header in
      let h = probe_header_runs fuel visit a.0 addr ca runs restores sound_a is enough header_a in
      let same_h =
        probe_header_lem ports cell stick space visit a.0 h.0 addr ca h.1 restores is h.2 in
      let sound_h = IsSound-Unchanged a.0 h.0 same_h sound_a in
      let f = probe_functions_runs fuel visit h.0 addr ca runs restores sound_h enough in
      (f.0, h.1 ++ f.1, bind_runs _ _ _ _ a.1 (bind_runs _ _ _ _ h.2 (bind_runs _ _ _ _ f.2 refl)))

  probe_runs : (fuel : ℕ) → Completes fuel (probe ports fuel)
  unfolding probe
  probe_runs zero s addr is sound below = absurd (omega (arith, below))
  probe_runs (suc fuel) s addr is sound below =
      let r = read_runs ports cell stick space s addr 0 (omega arith) in
      let read = read_config_dword_lem ports cell stick space s r.0 addr 0 r.1 r.2 in
      elim (Bool-cases (r.1 % 2 ^ 16 == 0xffff)) [
        | inl absent ↦ (r.0, [], bind_runs _ _ _ _ r.2 (rw absent refl))
        | inr present ↦
            let sound_read = IsSound-Unchanged s r.0 read.1 sound in
            let enough : depth addr ≤ fuel = omega (arith, below) in
            elim (sound_read addr is) [
              | inl absent ↦ absurd (ground (arith, read.0, read.1 (config_address addr 0)))
              | inr header ↦
                  let found =
                    probe_present_runs fuel r.0 addr (probe_runs fuel) is sound_read enough
                      header in
                  (found.0, found.1, bind_runs _ _ _ _ r.2 (rw present found.2))
            ]
      ]

  -- The ports reach a configuration space as `IsConfigSpace` says, and at every address there is nothing, or a
  -- device or bridge that passes the kernel's checks, with a bus of a higher number behind each bridge. Then the search
  -- for devices ends, with 512 as its fuel, stops at no check, and leaves every register as it was.
  pub init-Unchanged :
      (s : S)
      → IsSound (cell s)
      → (s' : S) × (ds : List DeviceInfo) × (init ports 512 s ≡ some (s', ds))
        × ((a : ℕ) → cell s' a ≡ cell s a)
  unfolding init
  init-Unchanged s sound =
      let r =
        probe_all_runs 512 (probe ports 512) s (slots 0 32) (probe_runs 512)
          (probe_lem ports cell stick space 512) sound (slots-AllAddresses 0 32 (omega arith))
          (slots-AllBelow 0 32 512 (omega arith) (omega arith) (omega arith)) in
      (
        r.0,
        r.1,
        r.2,
        probe_all_lem ports cell stick space (probe ports 512) s r.0 (slots 0 32) r.1
            (probe_lem ports cell stick space 512) (slots-AllAddresses 0 32 (omega arith)) r.2,
      )
