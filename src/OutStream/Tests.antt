-- ===== src/OutStream/Tests.antt =====
-- Output of small numbers, and a dump of two bytes.
use attos.Common.{ℕ, ◌+◌, ◌-◌, ◌*◌, ◌/◌, ◌≡◌, if◌then◌else◌, ◌==◌, some, arith, length}
use attos.OutStream.Format.{Chars}
use attos.OutStream.Dump.{Memory, hexdump}
use attos.OutStream.Rows.{Rows, hexdump-Rows}

abbrev letters : Memory
letters a = 65

hexdump-Rows_example :
    (s : Chars) × (n : ℕ) × (hexdump letters 0x100f 2 ≡ some s)
    × (n ≡ (if 2 == 0 then 0 else (0x100f + 2 + 15) / 16 - 0x100f / 16))
    × Rows letters 0x100f (0x100f + 2) (0x100f / 16 * 16) n s
    × (length s ≡ 65 * n)
hexdump-Rows_example = hexdump-Rows letters 0x100f 2 (λ a. omega arith) (omega arith)
