-- ===== src/Pci/Bars.antt =====
-- `read_bars` of kernel/pci.cpp.
use attos.Common.{
  ℕ, zero, suc, ◌+◌, ◌-◌, ◌*◌, ◌/◌, ◌%◌, ◌^◌, List, [], ◌∷◌, ◌++◌, Bool, ◌==◌, ◌!=◌, ◌&&◌, leb,
  if◌then◌else◌, Option, some, ◌>>=◌, ◌>>◌, require, length, replicate, u32,
}
use attos.Pci.Config.{Ports, read_config_dword, write_config_dword}

pub record BarInfo : Type 0 where
  pub address : ℕ
  pub size : ℕ

-- `bar_size &= mask`, then `(~bar_size) + 1`, all in 32 bits. The masks leave out two bits of an I/O range
-- and four of a memory range.
unfoldable pub bar_size_of : ℕ → ℕ → ℕ
bar_size_of orig sticky =
    let masked = if orig % 2 == 1 then sticky / 4 * 4 else sticky / 16 * 16 in
    u32 (2 ^ 32 - 1 - masked + 1)

-- A memory range with a type other than 0.
unfoldable pub is_wide : ℕ → Bool
is_wide orig = orig % 2 != 1 && orig / 2 % 4 != 0

module _ {S : Type 0} (ports : Ports S) (addr : ℕ) where
  -- What sticks of a register written with all ones; its value is put back.
  unfoldable pub measure : S → ℕ → ℕ → Option (S × ℕ)
  measure s reg orig = do
    s1 ← write_config_dword ports s addr reg (2 ^ 32 - 1)
    (s2, sticky) ← read_config_dword ports s1 addr reg
    s3 ← write_config_dword ports s2 addr reg orig
    some (s3, sticky)

  -- The second register of a 64-bit range must be 0 and must hold no bits.
  unfoldable pub consume_extra : S → ℕ → Option S
  consume_extra s i = do
    require (i != 5)
    (s1, extra) ← read_config_dword ports s addr (4 + i + 1)
    (s2, sticky) ← measure s1 (4 + i + 1) extra
    require (extra == 0)
    require (2 ^ 32 - 1 - sticky == 0)
    some s2

  -- One round of the loop, at a register that is not 0: the next index and the bar.
  unfoldable pub read_bar : S → ℕ → ℕ → Option (S × ℕ × BarInfo)
  read_bar s i orig = do
    (s1, sticky) ← measure s (4 + i) orig
    let bar : BarInfo = record { address = orig; size = bar_size_of orig sticky }
    let wide = consume_extra s1 i >>= λ s2. some (s2, i + 2, bar)
    if is_wide orig then (require (orig / 2 % 4 == 2) >> wide) else some (s1, i + 1, bar)

  -- The loop from an index on. Each round goes on by one at least: six are enough.
  unfoldable pub read_bars_from : ℕ → S → ℕ → Option (S × List BarInfo)
  read_bars_from zero s i = some (s, [])
  read_bars_from (suc rounds) s i =
      let take_bar : S × ℕ → Option (S × List BarInfo) = λ r. read_bar r.0 i r.1 >>= λ b.
      read_bars_from rounds b.0 b.1 >>= λ rest. some (rest.0, b.2 ∷ rest.1) in
      if leb 6 i
      then some (s, [])
      else read_config_dword ports s addr (4 + i) >>= λ r.
          if r.1 == 0 then read_bars_from rounds r.0 (i + 1) else take_bar r

  -- `all_bars` has six entries; those not used are 0.
  unfoldable pub read_bars : S → Option (S × List BarInfo)
  read_bars s = read_bars_from 6 s 0 >>= λ r.
      some (r.0, r.1 ++ replicate (6 - length r.1) (record { address = 0; size = 0 }))
