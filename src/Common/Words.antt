-- ===== src/Common/Words.antt =====
-- Machine words as native numbers: wrap by `%`, and `round_up` of attos/cpu.h.
use Prim.Native.Nat.{ℕ, ◌+◌, ◌-◌, ◌%◌, ◌^◌, ◌≤◌, ◌<◌}
use mathlib.Core.Path.{◌≡◌}
use native.Mathlib.Omega.{arith}
use attos.Common.Tests.{if◌then◌else◌, ◌==◌}

abbrev pub u8 : ℕ → ℕ
u8 n = n % 2 ^ 8

abbrev pub u16 : ℕ → ℕ
u16 n = n % 2 ^ 16

abbrev pub u32 : ℕ → ℕ
u32 n = n % 2 ^ 32

abbrev pub u64 : ℕ → ℕ
u64 n = n % 2 ^ 64

-- `round_up` on a `uint64_t`: the sum of the second branch wraps.
abbrev pub round_up : ℕ → ℕ → ℕ
round_up val align = if val % align == 0 then val else u64 (val + align - val % align)

pub round_up_lem :
    (val : ℕ)
    → val + 16 < 2 ^ 64
    → (val ≤ round_up val 16) × (round_up val 16 < val + 16) × (round_up val 16 % 16 ≡ 0)
round_up_lem val fits = ground arith
