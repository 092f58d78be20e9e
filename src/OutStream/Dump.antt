-- ===== src/OutStream/Dump.antt =====
-- `hexdump` of attos/out_stream.cpp.
use attos.Common.{
  ℕ, zero, suc, ◌+◌, ◌*◌, ◌/◌, [], ◌∷◌, ◌++◌, Bool, ◌&&◌, ◌==◌, ltb, leb, if◌then◌else◌, Option,
  none, some, u64,
}
use attos.OutStream.Format.{Chars, both, as_hex, put_formatted}

-- The bytes of the memory, by address.
abbrev pub Memory : Type 0
Memory = ℕ → ℕ

module _ (mem : Memory) (beg end_addr : ℕ) where
  abbrev pub in_range : ℕ → Bool
  in_range at = leb beg at && ltb at end_addr

  unfoldable pub hex_column : ℕ → Option Chars
  hex_column at =
      both (if in_range at then put_formatted (as_hex 1 (mem at)) else some (32 ∷ 32 ∷ []))
        (some (32 ∷ []))

  -- The first inner loop, over `count` columns from an address on.
  unfoldable pub hex_columns : ℕ → ℕ → Option Chars
  hex_columns at zero = some []
  hex_columns at (suc count) = both (hex_column at) (hex_columns (u64 (at + 1)) count)

  unfoldable pub text_char : ℕ → ℕ
  text_char at = if in_range at && (ltb 32 (mem at) && ltb (mem at) 128) then mem at else 32

  -- The second inner loop.
  unfoldable pub text_columns : ℕ → ℕ → Chars
  text_columns at zero = []
  text_columns at (suc count) = text_char at ∷ text_columns (u64 (at + 1)) count

  unfoldable pub line : ℕ → Option Chars
  line a = both (hex_columns a 16) (some (text_columns a 16 ++ 10 ∷ []))

  -- The outer loop, on fuel: `none` when it has run out.
  unfoldable pub lines : ℕ → ℕ → ℕ → Option Chars
  lines zero a limit = none
  lines (suc fuel) a limit =
      let more = both (line a) (lines fuel (u64 (a + 16)) limit) in
      if ltb a limit then more else some []

-- With the number of lines that the outer loop can have at most as its fuel.
unfoldable pub hexdump : Memory → ℕ → ℕ → Option Chars
hexdump mem ptr len =
    let end_addr = u64 (ptr + len) in
    let dumped =
      lines mem ptr end_addr (len / 16 + 3) (ptr / 16 * 16) (u64 (end_addr + 15) / 16 * 16) in
    if len == 0 then some [] else dumped
