-- ===== src/Pci/Space.antt =====
-- The configuration space behind the ports of kernel/pci.cpp, and one register of it measured.
use attos.Common.{
  ℕ, ◌+◌, ◌-◌, ◌/◌, ◌%◌, ◌^◌, ◌≤◌, ◌<◌, ◌≡◌, ◌≢◌, ap, sym, ◌∙◌, ◌==◌, ◌!=◌, some, ◌>>=◌, ◌>>◌,
  require, arith, Bool-cases, inl, inr, bind-some, require-some, subst,
}
use attos.Pci.Config.{
  Ports, read_config_dword, write_config_dword, config_address, config_address_port,
  config_data_port, IsAddress,
}
use attos.Pci.Bars.{BarInfo, bar_size_of, is_wide, measure, consume_extra, read_bar}

-- How the ports reach the configuration space: `cell` is what a register holds, and `stick` what it holds after
-- a write. This is asked only of the six base address registers of a function, which are the ones written: a
-- value that is read from one can be put back, and writing one leaves all other registers.
pub record IsConfigSpace {S : Type 0} (ports : Ports S) (cell : S → ℕ → ℕ) (stick : ℕ → ℕ → ℕ)
    : Type 0 where
  pub selects : (s : S) (a b : ℕ) → cell (ports.outdword s config_address_port a) b ≡ cell s b
  pub reads :
      (s : S) (a : ℕ)
      → ports.indword (ports.outdword s config_address_port a) config_data_port ≡ cell s a
  pub writes :
      (s : S) (addr reg v : ℕ)
      → IsAddress addr
      → 4 ≤ reg
      → reg < 10
      → let at = config_address addr reg in
        (cell (ports.outdword (ports.outdword s config_address_port at) config_data_port v) at
          ≡ stick at v)
        × ((b : ℕ)
            → at ≢ b
            → cell (ports.outdword (ports.outdword s config_address_port at) config_data_port v) b
              ≡ cell s b)
  pub kept :
      (s : S) (addr reg : ℕ)
      → IsAddress addr
      → 4 ≤ reg
      → reg < 10
      → stick (config_address addr reg) (cell s (config_address addr reg))
        ≡ cell s (config_address addr reg)

module _ {S : Type 0} (ports : Ports S) (cell : S → ℕ → ℕ) (stick : ℕ → ℕ → ℕ)
    (space : IsConfigSpace ports cell stick) where
  pub read_config_dword_lem :
      (s s' : S) (addr reg v : ℕ)
      → read_config_dword ports s addr reg ≡ some (s', v)
      → (v ≡ cell s (config_address addr reg)) × ((a : ℕ) → cell s' a ≡ cell s a)
  unfolding read_config_dword
  read_config_dword_lem s s' addr reg v e =
      let at : ℕ = config_address addr reg in
      let same : ports.outdword s config_address_port at ≡ s' = ground arith in
      let value : ports.indword (ports.outdword s config_address_port at) config_data_port ≡ v =
        ground arith in
      (
        sym value ∙ space.reads s at,
        λ a. subst (λ x. cell x a ≡ cell s a) same (space.selects s at a),
      )

  pub write_config_dword_lem :
      (s s' : S) (addr reg v : ℕ)
      → IsAddress addr
      → 4 ≤ reg
      → reg < 10
      → write_config_dword ports s addr reg v ≡ some s'
      → (cell s' (config_address addr reg) ≡ stick (config_address addr reg) v)
        × ((a : ℕ) → config_address addr reg ≢ a → cell s' a ≡ cell s a)
  unfolding write_config_dword
  write_config_dword_lem s s' addr reg v is lo hi e =
      let at : ℕ = config_address addr reg in
      let same : ports.outdword (ports.outdword s config_address_port at) config_data_port v ≡ s' =
        ground arith in
      let written = space.writes s addr reg v is lo hi in
      (
        subst (λ x. cell x at ≡ stick at v) same written.0,
        λ a n. subst (λ x. cell x a ≡ cell s a) same (written.1 a n),
      )

  -- Every register holds what it held.
  abbrev pub Same : S → S → Type 0
  Same s s' = (a : ℕ) → cell s' a ≡ cell s a

  pub measure_lem :
      (s s' : S) (addr reg orig sticky : ℕ)
      → IsAddress addr
      → 4 ≤ reg
      → reg < 10
      → orig ≡ cell s (config_address addr reg)
      → measure ports addr s reg orig ≡ some (s', sticky)
      → Same s s' × (sticky ≡ stick (config_address addr reg) (2 ^ 32 - 1))
  unfolding measure
  measure_lem s s' addr reg orig sticky is lo hi o e =
      let at : ℕ = config_address addr reg in
      let w1 = bind-some _ _ _ e in
      let r2 = bind-some _ _ _ w1.2 in
      let w3 = bind-some _ _ _ r2.2 in
      let end_state : w3.0 ≡ s' = cc in
      let value : r2.0.1 ≡ sticky = cc in
      let ones = write_config_dword_lem s w1.0 addr reg (2 ^ 32 - 1) is lo hi w1.1 in
      let read = read_config_dword_lem w1.0 r2.0.0 addr reg r2.0.1 r2.1 in
      let back = write_config_dword_lem r2.0.0 w3.0 addr reg orig is lo hi w3.1 in
      (
        (λ a. elim (Bool-cases (at == a)) [
          | inl same ↦
              (let it : at ≡ a = ground arith in
                subst (λ x. cell s' x ≡ cell s x) it
                  (ap (λ x. cell x at) (sym end_state)
                    ∙ back.0
                    ∙ ap (stick at) o
                    ∙ space.kept s addr reg is lo hi))
          | inr apart ↦
              (let n : at ≢ a = ground arith in
                ap (λ x. cell x a) (sym end_state) ∙ back.1 a n ∙ read.1 a ∙ ones.1 a n)
        ]),
        sym value ∙ read.0 ∙ ones.0,
      )

  pub Same-trans : (s s' s'' : S) → Same s s' → Same s' s'' → Same s s''
  Same-trans s s' s'' h k a = k a ∙ h a

  pub consume_extra-Same :
      (s s' : S) (addr i : ℕ)
      → IsAddress addr
      → i < 6
      → consume_extra ports addr s i ≡ some s'
      → Same s s'
  unfolding consume_extra
  consume_extra-Same s s' addr i is lt e =
      let c0 = require-some (i != 5) _ _ e in
      let r1 = bind-some _ _ _ c0.1 in
      let m2 = bind-some _ _ _ r1.2 in
      let c3 = require-some (r1.0.1 == 0) _ _ m2.2 in
      let c4 = require-some (2 ^ 32 - 1 - m2.0.1 == 0) _ _ c3.1 in
      let end_state : m2.0.0 ≡ s' = ground (arith, c4.1) in
      let read = read_config_dword_lem s r1.0.0 addr (4 + i + 1) r1.0.1 r1.1 in
      let extra : r1.0.1 ≡ cell r1.0.0 (config_address addr (4 + i + 1)) =
        read.0 ∙ sym (read.1 (config_address addr (4 + i + 1))) in
      let measured =
        measure_lem r1.0.0 m2.0.0 addr (4 + i + 1) r1.0.1 m2.0.1 is (omega arith)
          (ground (arith, c0.0, lt)) extra m2.1 in
      subst (Same s) end_state (Same-trans s r1.0.0 m2.0.0 read.1 measured.0)

  pub read_bar_lem :
      (s s' : S) (addr i orig j : ℕ) (bar : BarInfo)
      → IsAddress addr
      → i < 6
      → orig ≡ cell s (config_address addr (4 + i))
      → read_bar ports addr s i orig ≡ some (s', j, bar)
      → Same s s'
        × (bar.address ≡ orig)
        × (bar.size ≡ bar_size_of orig (stick (config_address addr (4 + i)) (2 ^ 32 - 1)))
  unfolding read_bar
  read_bar_lem s s' addr i orig j bar is lt o e =
      let m = bind-some _ _ _ e in
      let measured =
        measure_lem s m.0.0 addr (4 + i) orig m.0.1 is (omega arith) (omega arith) o m.1 in
      let measured_bar : BarInfo = record { address = orig; size = bar_size_of orig m.0.1 } in
      elim (Bool-cases (is_wide orig)) [
        | inr narrow ↦
            let got : some (m.0.0, i + 1, measured_bar) ≡ some (s', j, bar) = rw narrow at m.2 in
            let end_state : m.0.0 ≡ s' = ground (arith, got) in
            (
              subst (Same s) end_state measured.0,
              ground (arith, got),
              ground (arith, got, measured.1),
            )
        | inl wide ↦
            let chosen : (require (orig / 2 % 4 == 2)
                  >> (consume_extra ports addr m.0.0 i >>= λ s2. some (s2, i + 2, measured_bar)))
                ≡ some (s', j, bar) =
              rw wide at m.2 in
            let c1 = require-some (orig / 2 % 4 == 2) _ _ chosen in
            let x2 = bind-some _ _ _ c1.1 in
            let got : some (x2.0, i + 2, measured_bar) ≡ some (s', j, bar) = x2.2 in
            let end_state : x2.0 ≡ s' = ground (arith, got) in
            (
              subst (Same s) end_state (
                  Same-trans s m.0.0 x2.0 measured.0
                    (consume_extra-Same m.0.0 x2.0 addr i is lt x2.1)),
              ground (arith, got),
              ground (arith, got, measured.1),
            )
      ]
