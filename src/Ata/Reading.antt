-- ===== src/Ata/Reading.antt =====
-- Reading a sector with kernel/ata.cpp, as the drive sees it.
use attos.Common.{
  ℕ, zero, suc, ◌+◌, ◌*◌, ◌/◌, ◌%◌, ◌^◌, ◌<◌, ◌≡◌, ◌≢◌, refl, sym, ap, ◌∙◌, subst, ◌==◌, false, not,
  ltb, if◌then◌else◌, some, List, arith, Bool-cases, inl, inr, require-some, bind-some, if-true,
  if-false, fun_ext,
}
use attos.Ata.Device.{
  Ports, DeviceInfo, data_port, sector_count, lba_low, lba_mid, lba_high, drive, command, is_busy,
  is_failed, is_requesting, slave_bit, port_number, in_port, out, delay, wait_rounds, wait_status,
  address_sector, read_sector,
}

-- Registers that keep what was last written to a port, whatever is read.
pub record IsLatched {S : Type 0} (ports : Ports S) (latch : S → ℕ → ℕ) : Type 0 where
  pub same : (s : S) (port value : ℕ) → latch (ports.out_byte s port value) port ≡ value
  pub other :
      (s : S) (port value k : ℕ) → k ≢ port → latch (ports.out_byte s port value) k ≡ latch s k
  pub byte_read : (s : S) (port k : ℕ) → latch (ports.in_byte s port).1 k ≡ latch s k
  pub words_read : (s : S) (port count k : ℕ) → latch (ports.in_words s port count).1 k ≡ latch s k

module _ {S : Type 0} (ports : Ports S) (info : DeviceInfo) (latch : S → ℕ → ℕ)
    (latched : IsLatched ports latch) where
  delay_keeps : (n : ℕ) (s : S) (k : ℕ) → latch (delay ports info n s) k ≡ latch s k
  delay_keeps zero s k = refl
  delay_keeps (suc n) s k =
      delay_keeps n (ports.in_byte s info.control_block_register).1 k
      ∙ latched.byte_read s info.control_block_register k

  -- A status that is waited for is neither busy nor failed, and waiting writes nothing.
  wait_rounds_lem :
      (n : ℕ) (s s' : S) (status : ℕ)
      → wait_rounds ports info n s ≡ some (status, s')
      → (is_busy status ≡ false) × (is_failed status ≡ false) × ((k : ℕ) → latch s' k ≡ latch s k)
  unfolding wait_rounds
  wait_rounds_lem zero s s' status e = absurd (ground (arith, e))
  wait_rounds_lem (suc n) s s' status e =
      let look : ℕ × S = in_port ports info (delay ports info 4 s) command in
      let kept : (k : ℕ) → latch look.1 k ≡ latch s k = λ k.
        latched.byte_read (delay ports info 4 s) (port_number ports info command) k
        ∙ delay_keeps 4 s k in
      elim (Bool-cases (is_busy look.0)) [
        | inl busy ↦
            let rest = wait_rounds_lem n look.1 s' status (if-true (is_busy look.0) _ _ _ busy e) in
            (rest.0, rest.1, λ k. rest.2 k ∙ kept k)
        | inr ready ↦
            let c =
              require-some (not (is_failed look.0)) _ _ (if-false (is_busy look.0) _ _ _ ready e) in
            let same : look ≡ (status, s') = ground (arith, c.1) in
            let same_status : look.0 ≡ status = ap (λ x. x.0) same in
            let same_s : look.1 ≡ s' = ap (λ x. x.1) same in
            (
              ap is_busy (sym same_status) ∙ ready,
              ap is_failed (sym same_status) ∙ ground (arith, c.0),
              λ k. ap (λ x. latch x k) (sym same_s) ∙ kept k,
            )
      ]

  -- The registers after a sector has been addressed.
  abbrev pub IsAddressed : S → ℕ → Type 0
  IsAddressed s lba =
      let port : ℕ → ℕ = λ k. latch s (port_number ports info k) in
      (port lba_low + port lba_mid * 2 ^ 8 + port lba_high * 2 ^ 16 + port drive % 2 ^ 4 * 2 ^ 24
        ≡ lba)
      × (port drive / 2 ^ 4 % 2 ≡ (if info.slave then 1 else 0))
      × (port drive / 2 ^ 5 ≡ 7)
      × (port sector_count ≡ 1)
      × (port command ≡ 0x20)

  keeps :
      (s : S) (port value k : ℕ)
      → k ≢ port
      → latch (out ports info s port value) (port_number ports info k)
        ≡ latch s (port_number ports info k)
  keeps s port value k apart =
      latched.other s (port_number ports info port) value (port_number ports info k)
        (λ e. apart (omega (arith, e)))

  address_sector-IsAddressed :
      (s : S) (lba : ℕ) → lba < 2 ^ 28 → IsAddressed (address_sector ports info s lba) lba
  address_sector-IsAddressed s lba small =
      let head : ℕ = 0xE0 + slave_bit info.slave + lba / 2 ^ 24 % 2 ^ 4 in
      let s1 : S = out ports info s drive head in
      let s2 : S = out ports info s1 sector_count 1 in
      let s3 : S = out ports info s2 lba_low (lba % 2 ^ 8) in
      let s4 : S = out ports info s3 lba_mid (lba / 2 ^ 8 % 2 ^ 8) in
      let s5 : S = out ports info s4 lba_high (lba / 2 ^ 16 % 2 ^ 8) in
      let s6 : S = out ports info s5 command 0x20 in
      let high : latch s6 (port_number ports info lba_high) ≡ lba / 2 ^ 16 % 2 ^ 8 =
        keeps s5 command 0x20 lba_high (λ e. omega (arith, e))
        ∙ latched.same s4 (port_number ports info lba_high) _ in
      let mid : latch s6 (port_number ports info lba_mid) ≡ lba / 2 ^ 8 % 2 ^ 8 =
        keeps s5 command 0x20 lba_mid (λ e. omega (arith, e))
        ∙ keeps s4 lba_high _ lba_mid (λ e. omega (arith, e))
        ∙ latched.same s3 (port_number ports info lba_mid) _ in
      let low : latch s6 (port_number ports info lba_low) ≡ lba % 2 ^ 8 =
        keeps s5 command 0x20 lba_low (λ e. omega (arith, e))
        ∙ keeps s4 lba_high _ lba_low (λ e. omega (arith, e))
        ∙ keeps s3 lba_mid _ lba_low (λ e. omega (arith, e))
        ∙ latched.same s2 (port_number ports info lba_low) _ in
      let count : latch s6 (port_number ports info sector_count) ≡ 1 =
        keeps s5 command 0x20 sector_count (λ e. omega (arith, e))
        ∙ keeps s4 lba_high _ sector_count (λ e. omega (arith, e))
        ∙ keeps s3 lba_mid _ sector_count (λ e. omega (arith, e))
        ∙ keeps s2 lba_low _ sector_count (λ e. omega (arith, e))
        ∙ latched.same s1 (port_number ports info sector_count) _ in
      let chosen : latch s6 (port_number ports info drive) ≡ head =
        keeps s5 command 0x20 drive (λ e. omega (arith, e))
        ∙ keeps s4 lba_high _ drive (λ e. omega (arith, e))
        ∙ keeps s3 lba_mid _ drive (λ e. omega (arith, e))
        ∙ keeps s2 lba_low _ drive (λ e. omega (arith, e))
        ∙ keeps s1 sector_count _ drive (λ e. omega (arith, e))
        ∙ latched.same s (port_number ports info drive) _ in
      let order : latch s6 (port_number ports info command) ≡ 0x20 =
        latched.same s5 (port_number ports info command) 0x20 in
      (
        ground (arith, small, high, mid, low, chosen),
        ground (arith, chosen),
        ground (arith, chosen),
        count,
        order,
      )

  IsAddressed-same :
      (s s' : S) (lba : ℕ)
      → ((k : ℕ) → latch (address_sector ports info s lba) k ≡ latch s' k)
      → IsAddressed (address_sector ports info s lba) lba
      → IsAddressed s' lba
  IsAddressed-same s s' lba kept v =
      subst
        (λ f.
          (f (port_number ports info lba_low)
              + f (port_number ports info lba_mid) * 2 ^ 8
              + f (port_number ports info lba_high) * 2 ^ 16
              + f (port_number ports info drive) % 2 ^ 4 * 2 ^ 24
            ≡ lba)
          × (f (port_number ports info drive) / 2 ^ 4 % 2 ≡ (if info.slave then 1 else 0))
          × (f (port_number ports info drive) / 2 ^ 5 ≡ 7)
          × (f (port_number ports info sector_count) ≡ 1)
          × (f (port_number ports info command) ≡ 0x20))
        (fun_ext kept) v

  -- If read_sector returns, then the sector is one of the drive, and the registers hold its number, one sector,
  -- the drive that was meant, addressing by sector numbers, and the command to read.
  pub read_sector-IsAddressed :
      (lba_count lba : ℕ) (s s' : S) (sector : List ℕ)
      → read_sector ports info lba_count s lba ≡ some (sector, s')
      → (lba < lba_count) × IsAddressed s' lba
  unfolding read_sector
  read_sector-IsAddressed lba_count lba s s' sector e =
      let c1 = require-some (ltb lba lba_count) _ _ e in
      let c2 = require-some (lba / 2 ^ 28 == 0) _ _ c1.1 in
      let b1 = bind-some (wait_status ports info s) _ _ c2.1 in
      let s1 : S = b1.0.1 in
      let b2 = bind-some (wait_status ports info (address_sector ports info s1 lba)) _ _ b1.2 in
      let s2 : S = b2.0.1 in
      let c3 = require-some (is_requesting b2.0.0) _ _ b2.2 in
      let read : ports.in_words s2 (port_number ports info data_port) 256 ≡ (sector, s') =
        ground (arith, c3.1) in
      let kept : (k : ℕ) → latch (address_sector ports info s1 lba) k ≡ latch s' k = λ k. sym (
        ap (λ x. latch x.1 k) (sym read)
        ∙ latched.words_read s2 (port_number ports info data_port) 256 k
        ∙ (wait_rounds_lem 1000 (address_sector ports info s1 lba) s2 b2.0.0 b2.1).2 k) in
      (
        ground (arith, c1.0),
        IsAddressed-same s1 s' lba kept (address_sector-IsAddressed s1 lba (ground (arith, c2.0))),
      )
