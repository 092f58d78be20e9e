-- ===== src/Pci/Restore.antt =====
-- What `read_bars` of kernel/pci.cpp leaves in the configuration space, and what it finds there.
use attos.Common.{
  ℕ, zero, suc, ◌+◌, ◌-◌, ◌^◌, ◌<◌, ◌≡◌, refl, ap, sym, ◌∙◌, List, [], ◌∷◌, ◌++◌, ◌==◌, leb,
  if◌then◌else◌, Option, some, ◌>>=◌, length, replicate, arith, Bool-cases, inl, inr, bind-some,
  subst,
}
use attos.Pci.Config.{Ports, read_config_dword, config_address, IsAddress}
use attos.Pci.Bars.{BarInfo, bar_size_of, read_bar, read_bars_from, read_bars}
use attos.Pci.Space.{IsConfigSpace, Same-trans, read_config_dword_lem, read_bar_lem}

module _ {S : Type 0} (ports : Ports S) (cell : S → ℕ → ℕ) (stick : ℕ → ℕ → ℕ)
    (space : IsConfigSpace ports cell stick) where
  abbrev Same : S → S → Type 0
  Same s s' = (a : ℕ) → cell s' a ≡ cell s a

  -- A bar that describes one of the six registers: its value, and the size that its writable bits say.
  abbrev pub Describes : S → ℕ → BarInfo → Type 0
  Describes s addr bar =
      (i : ℕ) × (i < 6)
      × (bar.address ≡ cell s (config_address addr (4 + i)))
      × (bar.size ≡ bar_size_of bar.address (stick (config_address addr (4 + i)) (2 ^ 32 - 1)))

  abbrev pub AllDescribe : S → ℕ → List BarInfo → Type 0
  AllDescribe s addr [] = Unit {0}
  AllDescribe s addr (bar ∷ bars) = Describes s addr bar × AllDescribe s addr bars

  AllDescribe-back :
      (s s' : S) (addr : ℕ) (bars : List BarInfo)
      → Same s s'
      → AllDescribe s' addr bars
      → AllDescribe s addr bars
  AllDescribe-back s s' addr [] same all = tt
  AllDescribe-back s s' addr (bar ∷ bars) same ((i, lt, value, size), all) = (
    (i, lt, value ∙ same (config_address addr (4 + i)), size),
    AllDescribe-back s s' addr bars same all,
  )

  nothing_read :
      (s s' : S) (addr : ℕ) (bars : List BarInfo)
      → ◌≡◌ {A = Option (S × List BarInfo)} (some (s, [])) (some (s', bars))
      → Same s s' × AllDescribe s addr bars
  nothing_read s s' addr bars e =
      let end_state : s ≡ s' = ground arith in
      let none_read : [] ≡ bars = ground arith in
      (subst (Same s) end_state (λ a. refl), subst (AllDescribe s addr) none_read tt)

  -- The rest of a round behind a register that is not 0.
  abbrev bar_then : ℕ → ℕ → ℕ → S × ℕ → Option (S × List BarInfo)
  bar_then addr rounds i r = read_bar ports addr r.0 i r.1 >>= λ b.
      read_bars_from ports addr rounds b.0 b.1 >>= λ rest. some (rest.0, b.2 ∷ rest.1)

  round_lem :
      (rounds : ℕ) (s s' : S) (addr i : ℕ) (r : S × ℕ) (bars : List BarInfo)
      → IsAddress addr
      → ((t t' : S) (k : ℕ) (bs : List BarInfo)
          → read_bars_from ports addr rounds t k ≡ some (t', bs)
          → Same t t' × AllDescribe t addr bs)
      → i < 6
      → r.1 ≡ cell s (config_address addr (4 + i))
      → Same s r.0
      → bar_then addr rounds i r ≡ some (s', bars)
      → Same s s' × AllDescribe s addr bars
  round_lem rounds s s' addr i r bars is ih lt value same e =
      let b = bind-some _ _ _ e in
      let rest = bind-some _ _ _ b.2 in
      let end_state : rest.0.0 ≡ s' = ground (arith, rest.2) in
      let all : b.0.2 ∷ rest.0.1 ≡ bars = ground (arith, rest.2) in
      let bar =
        read_bar_lem ports cell stick space r.0 b.0.0 addr i r.1 b.0.1 b.0.2 is lt
          (value ∙ sym (same (config_address addr (4 + i)))) b.1 in
      let later = ih b.0.0 rest.0.0 b.0.1 rest.0.1 rest.1 in
      let before : Same s b.0.0 = Same-trans ports cell stick space s r.0 b.0.0 same bar.0 in
      (
        subst (Same s) end_state
            (Same-trans ports cell stick space s b.0.0 rest.0.0 before later.0),
        subst (AllDescribe s addr) all (
          (
            i,
            lt,
            bar.1 ∙ value,
            bar.2
                ∙ ap (λ v. bar_size_of v (stick (config_address addr (4 + i)) (2 ^ 32 - 1)))
                    (sym bar.1),
          ),
          AllDescribe-back s b.0.0 addr rest.0.1 before later.1,
        ),
      )

  read_bars_from_lem :
      (rounds : ℕ) (s s' : S) (addr i : ℕ) (bars : List BarInfo)
      → IsAddress addr
      → read_bars_from ports addr rounds s i ≡ some (s', bars)
      → Same s s' × AllDescribe s addr bars
  unfolding read_bars_from
  read_bars_from_lem zero s s' addr i bars is e = nothing_read s s' addr bars e
  read_bars_from_lem (suc rounds) s s' addr i bars is e = elim (Bool-cases (leb 6 i)) [
    | inl stop ↦ nothing_read s s' addr bars (rw stop at e)
    | inr go_on ↦
        let chosen : (read_config_dword ports s addr (4 + i) >>= λ r.
        if r.1 == 0 then read_bars_from ports addr rounds r.0 (i + 1) else bar_then addr rounds i r)
            ≡ some (s', bars) =
          rw go_on at e in
        let r = bind-some _ _ _ chosen in
        let read = read_config_dword_lem ports cell stick space s r.0.0 addr (4 + i) r.0.1 r.1 in
        elim (Bool-cases (r.0.1 == 0)) [
          | inl unused ↦
              let skipped : read_bars_from ports addr rounds r.0.0 (i + 1) ≡ some (s', bars) =
                rw unused at r.2 in
              let rest = read_bars_from_lem rounds r.0.0 s' addr (i + 1) bars is skipped in
              (
                Same-trans ports cell stick space s r.0.0 s' read.1 rest.0,
                AllDescribe-back s r.0.0 addr bars read.1 rest.1,
              )
          | inr used ↦
              let found : bar_then addr rounds i r.0 ≡ some (s', bars) = rw used at r.2 in
              round_lem rounds s s' addr i r.0 bars is
                (λ t t' k bs. read_bars_from_lem rounds t t' addr k bs is) (ground (arith, go_on))
                read.0 read.1 found
        ]
  ]

  -- The bars of a device, where no check stops the kernel, are read with no lasting change, if the
  -- ports reach a configuration space as `IsConfigSpace` says: every register holds what it held.
  -- Each entry is the value of one of the six registers, with the size that the register's writable
  -- bits say, and the entries behind them are 0.
  pub read_bars_lem :
      (s s' : S) (addr : ℕ) (bars : List BarInfo)
      → IsAddress addr
      → read_bars ports addr s ≡ some (s', bars)
      → ((a : ℕ) → cell s' a ≡ cell s a)
        × ((found : List BarInfo) × AllDescribe s addr found
            × (bars ≡ found ++ replicate (6 - length found) (record { address = 0; size = 0 })))
  unfolding read_bars
  read_bars_lem s s' addr bars is e =
      let r = bind-some _ _ _ e in
      let end_state : r.0.0 ≡ s' = ground (arith, r.2) in
      let lem = read_bars_from_lem 6 s r.0.0 addr 0 r.0.1 is r.1 in
      (subst (Same s) end_state lem.0, (r.0.1, lem.1, ground (arith, r.2)))
