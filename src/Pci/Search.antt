-- ===== src/Pci/Search.antt =====
-- What the search for devices of kernel/pci.cpp leaves in the configuration space.
use attos.Common.{
  ℕ, zero, suc, ◌/◌, ◌%◌, ◌^◌, ◌<◌, ◌≤◌, ◌≡◌, refl, ◌∙◌, List, [], ◌∷◌, ◌==◌, ◌&&◌, none, some,
  ◌>>=◌, ◌>>◌, require, arith, Bool-cases, inl, inr, bind-some, require-some, subst,
}
use attos.Pci.Config.{Ports, bus_of, slot_of, func_of, IsAddress, config_area_num_dwords}
use attos.Pci.Bars.{read_bars}
use attos.Pci.Space.{IsConfigSpace, read_config_dword_lem}
use attos.Pci.Restore.{read_bars_lem}
use attos.Pci.Probe.{
  DeviceInfo, header_type, primary_bus, secondary_bus, other_functions, slots, Found,
  read_config_area, probe_all, probe_header, probe_functions, probe_present, probe, init,
}

abbrev pub AllAddresses : List ℕ → Type 0
AllAddresses [] = Unit {0}
AllAddresses (addr ∷ addrs) = IsAddress addr × AllAddresses addrs

pub slots-AllAddresses : (bus n : ℕ) → bus < 256 → AllAddresses (slots bus n)
slots-AllAddresses bus zero lt = tt
slots-AllAddresses bus (suc n) lt = ((omega arith, omega arith), slots-AllAddresses bus n lt)

pub others-AllAddresses : (addr n : ℕ) → n ≤ 7 → AllAddresses (other_functions addr n)
unfolding bus_of slot_of
others-AllAddresses addr zero le = tt
others-AllAddresses addr (suc n) le =
    ((omega arith, omega arith), others-AllAddresses addr n (omega arith))

module _ {S : Type 0} (ports : Ports S) (cell : S → ℕ → ℕ) (stick : ℕ → ℕ → ℕ)
    (space : IsConfigSpace ports cell stick) where
  abbrev pub Unchanged : S → S → Type 0
  Unchanged s s' = (a : ℕ) → cell s' a ≡ cell s a

  abbrev pub Restores : (S → ℕ → Found ports) → Type 0
  Restores visit =
      (s s' : S) (addr : ℕ) (ds : List DeviceInfo)
      → IsAddress addr
      → visit s addr ≡ some (s', ds)
      → Unchanged s s'

  pub read_config_area_lem :
      (n reg : ℕ) (s s' : S) (addr : ℕ) (ds : List ℕ)
      → read_config_area ports s addr reg n ≡ some (s', ds)
      → Unchanged s s'
  unfolding read_config_area
  read_config_area_lem zero reg s s' addr ds e =
      let same : s ≡ s' = ground arith in subst (Unchanged s) same (λ a. refl)
  read_config_area_lem (suc n) reg s s' addr ds e =
      let r = bind-some _ _ _ e in
      let rest = bind-some _ _ _ r.2 in
      let same : rest.0.0 ≡ s' = ground (arith, rest.2) in
      let read = read_config_dword_lem ports cell stick space s r.0.0 addr reg r.0.1 r.1 in
      subst (Unchanged s) same
        (λ a. read_config_area_lem n (suc reg) r.0.0 rest.0.0 addr rest.0.1 rest.1 a ∙ read.1 a)

  pub probe_all_lem :
      (visit : S → ℕ → Found ports) (s s' : S) (addrs : List ℕ) (ds : List DeviceInfo)
      → Restores visit
      → AllAddresses addrs
      → probe_all ports visit s addrs ≡ some (s', ds)
      → Unchanged s s'
  unfolding probe_all
  probe_all_lem visit s s' [] ds ih all e =
      let same : s ≡ s' = ground arith in subst (Unchanged s) same (λ a. refl)
  probe_all_lem visit s s' (addr ∷ addrs) ds ih (is, all) e =
      let r = bind-some _ _ _ e in
      let rest = bind-some _ _ _ r.2 in
      let same : rest.0.0 ≡ s' = ground (arith, rest.2) in
      subst (Unchanged s) same (λ a.
        probe_all_lem visit r.0.0 rest.0.0 addrs rest.0.1 ih all rest.1 a
        ∙ ih s r.0.0 addr r.0.1 is r.1 a)

  pub probe_header_lem :
      (visit : S → ℕ → Found ports) (s s' : S) (addr : ℕ) (ca : List ℕ) (ds : List DeviceInfo)
      → Restores visit
      → IsAddress addr
      → probe_header ports visit s addr ca ≡ some (s', ds)
      → Unchanged s s'
  unfolding probe_header
  probe_header_lem visit s s' addr ca ds ih is e = elim (Bool-cases (header_type ca % 4 == 0)) [
    | inl device ↦
        let chosen : (read_bars ports addr s >>= λ r.
        some (r.0, record { address = addr; config = ca; bars = r.1 } ∷ []))
            ≡ some (s', ds) =
          rw device at e in
        let r = bind-some _ _ _ chosen in
        let same : r.0.0 ≡ s' = ground (arith, r.2) in
        subst (Unchanged s) same (read_bars_lem ports cell stick space s r.0.0 addr r.0.1 is r.1).0
    | inr other ↦ elim (Bool-cases (header_type ca % 4 == 1)) [
      | inl bridge ↦
          let chosen : (require (bus_of addr == primary_bus ca)
                >> probe_all ports visit s (slots (secondary_bus ca) 32))
              ≡ some (s', ds) =
            rw (other, bridge) at e in
          let c = require-some (bus_of addr == primary_bus ca) _ _ chosen in
          probe_all_lem visit s s' (slots (secondary_bus ca) 32) ds ih
            (slots-AllAddresses (secondary_bus ca) 32 (omega arith)) c.1
      | inr neither ↦
          let chosen : ◌≡◌ {A = Found ports} none (some (s', ds)) = rw (other, neither) at e in
          absurd cc
    ]
  ]

  pub probe_functions_lem :
      (visit : S → ℕ → Found ports) (s s' : S) (addr : ℕ) (ca : List ℕ) (ds : List DeviceInfo)
      → Restores visit
      → probe_functions ports visit s addr ca ≡ some (s', ds)
      → Unchanged s s'
  unfolding probe_functions
  probe_functions_lem visit s s' addr ca ds ih e =
      elim (Bool-cases (func_of addr == 0 && header_type ca / 128 % 2 == 1)) [
        | inl multi ↦
            probe_all_lem visit s s' (other_functions addr 7) ds ih
              (others-AllAddresses addr 7 (omega arith)) (rw multi at e)
        | inr single ↦
            let chosen : ◌≡◌ {A = Found ports} (some (s, [])) (some (s', ds)) = rw single at e in
            let same : s ≡ s' = ground (arith, chosen) in subst (Unchanged s) same (λ a. refl)
      ]

  probe_present_lem :
      (visit : S → ℕ → Found ports) (s s' : S) (addr : ℕ) (ds : List DeviceInfo)
      → Restores visit
      → IsAddress addr
      → probe_present ports visit s addr ≡ some (s', ds)
      → Unchanged s s'
  unfolding probe_present
  probe_present_lem visit s s' addr ds ih is e =
      let area = bind-some _ _ _ e in
      let header = bind-some _ _ _ area.2 in
      let functions = bind-some _ _ _ header.2 in
      let same : functions.0.0 ≡ s' = ground (arith, functions.2) in
      subst (Unchanged s) same (λ a.
        probe_functions_lem visit header.0.0 functions.0.0 addr area.0.1 functions.0.1 ih
          functions.1 a
        ∙ probe_header_lem visit area.0.0 header.0.0 addr area.0.1 header.0.1 ih is header.1 a
        ∙ read_config_area_lem config_area_num_dwords 0 s area.0.0 addr area.0.1 area.1 a)

  pub probe_lem : (fuel : ℕ) → Restores (probe ports fuel)
  unfolding probe
  probe_lem zero s s' addr ds is e = absurd cc
  probe_lem (suc fuel) s s' addr ds is e =
      let r = bind-some _ _ _ e in
      let read = read_config_dword_lem ports cell stick space s r.0.0 addr 0 r.0.1 r.1 in
      elim (Bool-cases (r.0.1 % 2 ^ 16 == 0xffff)) [
        | inl absent ↦
            let chosen : ◌≡◌ {A = Found ports} (some (r.0.0, [])) (some (s', ds)) =
              rw absent at r.2 in
            let same : r.0.0 ≡ s' = ground (arith, chosen) in subst (Unchanged s) same read.1
        | inr present ↦
            let chosen : probe_present ports (probe ports fuel) r.0.0 addr ≡ some (s', ds) =
              rw present at r.2 in
            λ a.
              probe_present_lem (probe ports fuel) r.0.0 s' addr ds (probe_lem fuel) is chosen a
              ∙ read.1 a
      ]

  -- The search for devices, through all bridges, where it comes to its end: it changes no register for good, and
  -- each holds what it held before. The ports reach a configuration space as `IsConfigSpace` says.
  pub init_lem :
      (fuel : ℕ) (s s' : S) (ds : List DeviceInfo)
      → init ports fuel s ≡ some (s', ds)
      → (a : ℕ) → cell s' a ≡ cell s a
  unfolding init
  init_lem fuel s s' ds e =
      probe_all_lem (probe ports fuel) s s' (slots 0 32) ds (probe_lem fuel)
        (slots-AllAddresses 0 32 (omega arith)) e
