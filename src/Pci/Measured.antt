-- ===== src/Pci/Measured.antt =====
-- That `read_bars` of kernel/pci.cpp comes to its end.
use attos.Common.{
  ℕ, zero, suc, ◌+◌, ◌-◌, ◌/◌, ◌%◌, ◌^◌, ◌<◌, ◌≡◌, ◌≢◌, refl, ap, sym, ◌∙◌, List, [], ◌∷◌, ◌++◌,
  ◌==◌, ltb, leb, some, length, replicate, arith, Bool-cases, inl, inr, bind_runs, require_runs,
  fun_ext, subst, true,
}
use attos.Pci.Config.{
  Ports, read_config_dword, write_config_dword, config_address, config_area_num_dwords,
  config_address_port, config_data_port, IsAddress,
}
use attos.Pci.Bars.{
  BarInfo, bar_size_of, is_wide, measure, consume_extra, read_bar, read_bars_from, read_bars,
}
use attos.Pci.Space.{IsConfigSpace, read_config_dword_lem, measure_lem, read_bar_lem}

module _ {S : Type 0} (ports : Ports S) (cell : S → ℕ → ℕ) (stick : ℕ → ℕ → ℕ)
    (space : IsConfigSpace ports cell stick) where
  pub read_runs :
      (s : S) (addr reg : ℕ)
      → reg < 64
      → (s' : S) × (v : ℕ) × (read_config_dword ports s addr reg ≡ some (s', v))
  unfolding read_config_dword
  read_runs s addr reg lt =
      let fits : ltb reg config_area_num_dwords ≡ true = ground arith in
      let selected : S = ports.outdword s config_address_port (config_address addr reg) in
      (selected, ports.indword selected config_data_port, require_runs _ _ _ fits refl)

  write_runs :
      (s : S) (addr reg v : ℕ)
      → reg < 64
      → (s' : S) × (write_config_dword ports s addr reg v ≡ some s')
  unfolding write_config_dword
  write_runs s addr reg v lt =
      let fits : ltb reg config_area_num_dwords ≡ true = ground arith in
      let selected : S = ports.outdword s config_address_port (config_address addr reg) in
      (ports.outdword selected config_data_port v, require_runs _ _ _ fits refl)

  measure_runs :
      (s : S) (addr reg orig : ℕ)
      → reg < 64
      → (s' : S) × (v : ℕ) × (measure ports addr s reg orig ≡ some (s', v))
  unfolding measure
  measure_runs s addr reg orig lt =
      let ones = write_runs s addr reg (2 ^ 32 - 1) lt in
      let sticky = read_runs ones.0 addr reg lt in
      let back = write_runs sticky.0 addr reg orig lt in
      (
        back.0,
        sticky.1,
        bind_runs _ _ _ _ ones.1 (bind_runs _ _ _ _ sticky.2 (bind_runs _ _ _ _ back.1 refl)),
      )

  -- What the kernel asks of a 64-bit range: its type, and a register behind it that is 0 and holds all bits.
  abbrev pub IsRange : (ℕ → ℕ) → ℕ → ℕ → Type 0
  IsRange c addr i =
      is_wide (c (config_address addr (4 + i))) ≡ true
      → (c (config_address addr (4 + i)) / 2 % 4 ≡ 2)
        × (i ≢ 5)
        × (c (config_address addr (4 + i + 1)) ≡ 0)
        × (stick (config_address addr (4 + i + 1)) (2 ^ 32 - 1) ≡ 2 ^ 32 - 1)

  consume_extra_runs :
      (s : S) (addr i : ℕ)
      → IsAddress addr
      → i < 5
      → cell s (config_address addr (4 + i + 1)) ≡ 0
      → stick (config_address addr (4 + i + 1)) (2 ^ 32 - 1) ≡ 2 ^ 32 - 1
      → (s' : S) × (consume_extra ports addr s i ≡ some s')
  unfolding consume_extra
  consume_extra_runs s addr i is lt zeroed all =
      let at : ℕ = config_address addr (4 + i + 1) in
      let r = read_runs s addr (4 + i + 1) (omega arith) in
      let value = read_config_dword_lem ports cell stick space s r.0 addr (4 + i + 1) r.1 r.2 in
      let m = measure_runs r.0 addr (4 + i + 1) r.1 (omega arith) in
      let measured =
        measure_lem ports cell stick space r.0 m.0 addr (4 + i + 1) r.1 m.1 is (omega arith)
          (omega arith) (value.0 ∙ sym (value.1 at)) m.2 in
      let zero_read : r.1 ≡ 0 = value.0 ∙ zeroed in
      let sticks : m.1 ≡ 2 ^ 32 - 1 = measured.1 ∙ all in
      (
        m.0,
        require_runs _ _ _ (ground arith) (
            bind_runs _ _ _ _ r.2 (
              bind_runs _ _ _ _ m.2 (
                require_runs _ _ _ (ground (arith, zero_read))
                  (require_runs _ _ _ (ground (arith, sticks)) refl)))),
      )

  read_bar_runs :
      (s : S) (addr i orig : ℕ)
      → IsAddress addr
      → i < 6
      → orig ≡ cell s (config_address addr (4 + i))
      → IsRange (cell s) addr i
      → (s' : S) × (j : ℕ) × (bar : BarInfo) × (read_bar ports addr s i orig ≡ some (s', j, bar))
  unfolding read_bar
  read_bar_runs s addr i orig is lt value range =
      let m = measure_runs s addr (4 + i) orig (omega arith) in
      let measured =
        measure_lem ports cell stick space s m.0 addr (4 + i) orig m.1 is (omega arith)
          (omega arith) value m.2 in
      let bar : BarInfo = record { address = orig; size = bar_size_of orig m.1 } in
      elim (Bool-cases (is_wide orig)) [
        | inr narrow ↦ (m.0, i + 1, bar, bind_runs _ _ _ _ m.2 (rw narrow refl))
        | inl wide ↦
            let (type, inside, zeroed, all) = range (ap is_wide (sym value) ∙ wide) in
            let behind =
              consume_extra_runs m.0 addr i is (omega (arith, inside, lt))
                (measured.0 (config_address addr (4 + i + 1)) ∙ zeroed) all in
            let typed : (orig / 2 % 4 == 2) ≡ true = ground (arith, type, value) in
            (
              behind.0,
              i + 2,
              bar,
              bind_runs _ _ _ _ m.2
                  (rw wide (require_runs _ _ _ typed (bind_runs _ _ _ _ behind.1 refl))),
            )
      ]

  -- The ranges of a device, as the kernel asks of them.
  abbrev pub HasRanges : (ℕ → ℕ) → ℕ → Type 0
  HasRanges c addr = (i : ℕ) → i < 6 → IsRange c addr i

  pub HasRanges-same :
      (s s' : S) (addr : ℕ)
      → ((a : ℕ) → cell s' a ≡ cell s a)
      → HasRanges (cell s) addr
      → HasRanges (cell s') addr
  HasRanges-same s s' addr same ranges = subst (λ c. HasRanges c addr) (sym (fun_ext same)) ranges

  read_bars_from_runs :
      (rounds : ℕ) (s : S) (addr i : ℕ)
      → IsAddress addr
      → HasRanges (cell s) addr
      → (s' : S) × (bars : List BarInfo) × (read_bars_from ports addr rounds s i ≡ some (s', bars))
  unfolding read_bars_from
  read_bars_from_runs zero s addr i is ranges = (s, [], refl)
  read_bars_from_runs (suc rounds) s addr i is ranges = elim (Bool-cases (leb 6 i)) [
    | inl stop ↦ (s, [], rw stop refl)
    | inr go_on ↦
        let lt : i < 6 = ground (arith, go_on) in
        let r = read_runs s addr (4 + i) (omega arith) in
        let read = read_config_dword_lem ports cell stick space s r.0 addr (4 + i) r.1 r.2 in
        let here : HasRanges (cell r.0) addr = HasRanges-same s r.0 addr read.1 ranges in
        elim (Bool-cases (r.1 == 0)) [
          | inl unused ↦
              let rest = read_bars_from_runs rounds r.0 addr (i + 1) is here in
              (rest.0, rest.1, rw go_on (bind_runs _ _ _ _ r.2 (rw unused rest.2)))
          | inr used ↦
              let value : r.1 ≡ cell r.0 (config_address addr (4 + i)) =
                read.0 ∙ sym (read.1 (config_address addr (4 + i))) in
              let b = read_bar_runs r.0 addr i r.1 is lt value (here i lt) in
              let bar =
                read_bar_lem ports cell stick space r.0 b.0 addr i r.1 b.1 b.2 is lt value b.3 in
              let rest =
                read_bars_from_runs rounds b.0 addr b.1 is
                  (HasRanges-same r.0 b.0 addr bar.0 here) in
              (
                rest.0,
                b.2 ∷ rest.1,
                rw go_on (
                    bind_runs _ _ _ _ r.2
                      (rw used (bind_runs _ _ _ _ b.3 (bind_runs _ _ _ _ rest.2 refl)))),
              )
        ]
  ]

  pub read_bars_runs :
      (s : S) (addr : ℕ)
      → IsAddress addr
      → HasRanges (cell s) addr
      → (s' : S) × (bars : List BarInfo) × (read_bars ports addr s ≡ some (s', bars))
  unfolding read_bars
  read_bars_runs s addr is ranges =
      let r = read_bars_from_runs 6 s addr 0 is ranges in
      (
        r.0,
        r.1 ++ replicate (6 - length r.1) (record { address = 0; size = 0 }),
        bind_runs _ _ _ _ r.2 refl,
      )
