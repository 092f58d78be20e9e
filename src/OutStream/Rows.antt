-- ===== src/OutStream/Rows.antt =====
-- The rows that `hexdump` of attos/out_stream.cpp prints.
use mathlib.Core.List.{append_assoc}
use attos.Common.{
  ℕ, zero, suc, ◌+◌, ◌-◌, ◌*◌, ◌/◌, ◌^◌, ◌≤◌, ◌<◌, ◌≡◌, refl, ap, ◌∙◌, [], ◌∷◌, ◌++◌, true, false,
  ◌&&◌, ◌==◌, ltb, if◌then◌else◌, some, arith, length, length-append, u64, inl, inr, Bool-cases,
}
use attos.OutStream.Format.{Chars, as_hex, put_formatted}
use attos.OutStream.Number.{value_from}
use attos.OutStream.Hex.{put_formatted_byte}
use attos.OutStream.Dump.{
  Memory, in_range, hex_column, hex_columns, text_char, text_columns, line, lines, hexdump,
}

-- The bytes that are dumped.
abbrev pub Inside : ℕ → ℕ → ℕ → Type 0
Inside beg end_addr at = (beg ≤ at) × (at < end_addr)

-- The columns of a row from an address on: two hexadecimal digits of the byte's value and a space, or three spaces.
pub data Columns (mem : Memory) (beg end_addr : ℕ) : ℕ → ℕ → Chars → Type 0 where
  no_columns : {at : ℕ} → Columns mem beg end_addr at 0 []
  byte_column :
      {at n : ℕ} {rest : Chars} (numeral : Chars)
      → Inside beg end_addr at
      → length numeral ≡ 2
      → value_from 16 0 numeral ≡ some (mem at)
      → Columns mem beg end_addr (at + 1) n rest
      → Columns mem beg end_addr at (suc n) (numeral ++ 32 ∷ rest)
  blank_column :
      {at n : ℕ} {rest : Chars}
      → ¬ Inside beg end_addr at
      → Columns mem beg end_addr (at + 1) n rest
      → Columns mem beg end_addr at (suc n) (32 ∷ 32 ∷ 32 ∷ rest)

-- The characters of a row: the byte itself where it can be printed, or a space.
pub data Letters (mem : Memory) (beg end_addr : ℕ) : ℕ → ℕ → Chars → Type 0 where
  no_letters : {at : ℕ} → Letters mem beg end_addr at 0 []
  letter :
      {at n : ℕ} {rest : Chars}
      → Inside beg end_addr at
      → 32 < mem at
      → mem at < 128
      → Letters mem beg end_addr (at + 1) n rest
      → Letters mem beg end_addr at (suc n) (mem at ∷ rest)
  gap :
      {at n : ℕ} {rest : Chars}
      → ¬ (Inside beg end_addr at × (32 < mem at) × (mem at < 128))
      → Letters mem beg end_addr (at + 1) n rest
      → Letters mem beg end_addr at (suc n) (32 ∷ rest)

-- So many rows of 16 bytes from an address on, a newline behind each.
pub data Rows (mem : Memory) (beg end_addr : ℕ) : ℕ → ℕ → Chars → Type 0 where
  no_rows : {at : ℕ} → Rows mem beg end_addr at 0 []
  row :
      {at n : ℕ} {hex text more : Chars}
      → Columns mem beg end_addr at 16 hex
      → Letters mem beg end_addr at 16 text
      → Rows mem beg end_addr (at + 16) n more
      → Rows mem beg end_addr at (suc n) (hex ++ (text ++ 10 ∷ more))

module _ (mem : Memory) (bytes : (a : ℕ) → mem a < 256) (beg end_addr : ℕ) where
  length-Columns : (at n : ℕ) (s : Chars) → Columns mem beg end_addr at n s → length s ≡ 3 * n
  length-Columns at zero s no_columns = refl
  length-Columns at (suc n) s (byte_column {rest = rest} numeral in_it two value cs) =
      omega (arith, length-append numeral (32 ∷ rest), two, length-Columns (at + 1) n rest cs)
  length-Columns at (suc n) s (blank_column {rest = rest} out cs) =
      omega (arith, length-Columns (at + 1) n rest cs)

  length-Letters : (at n : ℕ) (s : Chars) → Letters mem beg end_addr at n s → length s ≡ n
  length-Letters at zero s no_letters = refl
  length-Letters at (suc n) s (letter {rest = rest} in_it lo hi cs) =
      ap suc (length-Letters (at + 1) n rest cs)
  length-Letters at (suc n) s (gap {rest = rest} out cs) =
      ap suc (length-Letters (at + 1) n rest cs)

  length-Rows : (at n : ℕ) (s : Chars) → Rows mem beg end_addr at n s → length s ≡ 65 * n
  length-Rows at zero s no_rows = refl
  length-Rows at (suc n) s (row {hex = hex} {text = text} {more = more} cs ls rs) = omega (
    arith,
    length-append hex (text ++ 10 ∷ more),
    length-append text (10 ∷ more),
    length-Columns at 16 hex cs,
    length-Letters at 16 text ls,
    length-Rows (at + 16) n more rs,
  )

  hex_column_inside :
      (at : ℕ) (numeral : Chars)
      → in_range mem beg end_addr at ≡ true
      → put_formatted (as_hex 1 (mem at)) ≡ some numeral
      → hex_column mem beg end_addr at ≡ some (numeral ++ 32 ∷ [])
  unfolding hex_column
  hex_column_inside at numeral in_it e = rw (in_it, e) refl

  hex_column_outside :
      (at : ℕ)
      → in_range mem beg end_addr at ≡ false
      → hex_column mem beg end_addr at ≡ some (32 ∷ 32 ∷ 32 ∷ [])
  unfolding hex_column
  hex_column_outside at out = rw out refl

  hex_columns-suc :
      (at count : ℕ) (cell rest : Chars)
      → at + 1 < 2 ^ 64
      → hex_column mem beg end_addr at ≡ some cell
      → hex_columns mem beg end_addr (at + 1) count ≡ some rest
      → hex_columns mem beg end_addr at (suc count) ≡ some (cell ++ rest)
  unfolding hex_columns
  hex_columns-suc at count cell rest word e es =
      let next : u64 (at + 1) ≡ at + 1 = omega (arith, word) in rw (e, next, es) refl

  lines-suc :
      (fuel a limit : ℕ) (hex rest : Chars)
      → a < limit
      → a + 16 < 2 ^ 64
      → hex_columns mem beg end_addr a 16 ≡ some hex
      → lines mem beg end_addr fuel (a + 16) limit ≡ some rest
      → lines mem beg end_addr (suc fuel) a limit
        ≡ some (hex ++ (text_columns mem beg end_addr a 16 ++ 10 ∷ rest))
  unfolding lines line
  lines-suc fuel a limit hex rest lt word e es =
      let go_on : ltb a limit ≡ true = ground arith in
      let next : u64 (a + 16) ≡ a + 16 = omega (arith, word) in
      let text : Chars = text_columns mem beg end_addr a 16 in
      rw (go_on, next, e, es)
        (ap some (
          append_assoc hex (text ++ 10 ∷ []) rest
          ∙ ap (λ l. hex ++ l) (append_assoc text (10 ∷ []) rest)))

  hex_columns-Columns :
      (at count : ℕ)
      → at + count < 2 ^ 64
      → (s : Chars) × (hex_columns mem beg end_addr at count ≡ some s)
        × Columns mem beg end_addr at count s
  unfolding hex_columns
  hex_columns-Columns at zero word = ([], refl, no_columns)
  hex_columns-Columns at (suc count) word =
      let rest = hex_columns-Columns (at + 1) count (omega (arith, word)) in
      elim (Bool-cases (in_range mem beg end_addr at)) [
        | inl in_it ↦
            let printed = put_formatted_byte (mem at) (bytes at) in
            (
              printed.0 ++ 32 ∷ rest.0,
              hex_columns-suc at count (printed.0 ++ 32 ∷ []) rest.0 (omega (arith, word))
                    (hex_column_inside at printed.0 in_it printed.1) rest.1
                  ∙ ap some (append_assoc printed.0 (32 ∷ []) rest.0),
              byte_column printed.0 (ground arith) printed.2 printed.3 rest.2,
            )
        | inr out ↦ (
          32 ∷ 32 ∷ 32 ∷ rest.0,
          hex_columns-suc at count (32 ∷ 32 ∷ 32 ∷ []) rest.0 (omega (arith, word))
              (hex_column_outside at out) rest.1,
          blank_column (λ e. ground arith) rest.2,
        )
      ]

  text_columns-Letters :
      (at count : ℕ)
      → at + count < 2 ^ 64
      → Letters mem beg end_addr at count (text_columns mem beg end_addr at count)
  unfolding text_columns text_char
  text_columns-Letters at zero word = no_letters
  text_columns-Letters at (suc count) word =
      let next : u64 (at + 1) ≡ at + 1 = omega arith in
      let rest = text_columns-Letters (at + 1) count (omega (arith, word)) in
      elim (Bool-cases (in_range mem beg end_addr at && (ltb 32 (mem at) && ltb (mem at) 128))) [
        | inl shown ↦ rw (shown, next) (letter (ground arith) (ground arith) (ground arith) rest)
        | inr hidden ↦ rw (hidden, next) (gap (λ e. ground arith) rest)
      ]

  lines-Rows :
      (fuel a n limit : ℕ)
      → n < fuel
      → a + 16 * n ≡ limit
      → limit < 2 ^ 64
      → (s : Chars) × (lines mem beg end_addr fuel a limit ≡ some s) × Rows mem beg end_addr a n s
  unfolding lines
  lines-Rows zero a n limit lt e word = absurd (omega arith)
  lines-Rows (suc fuel) a zero limit lt e word =
      let stop : ltb a limit ≡ false = ground arith in ([], rw stop refl, no_rows)
  lines-Rows (suc fuel) a (suc n) limit lt e word =
      let hex = hex_columns-Columns a 16 (omega arith) in
      let text : Chars = text_columns mem beg end_addr a 16 in
      let rest = lines-Rows fuel (a + 16) n limit (omega arith) (omega arith) word in
      (
        hex.0 ++ (text ++ 10 ∷ rest.0),
        lines-suc fuel a limit hex.0 rest.0 (omega arith) (omega arith) hex.1 rest.1,
        row hex.2 (text_columns-Letters a 16 (omega arith)) rest.2,
      )

hexdump_empty : (mem : Memory) (ptr len : ℕ) → (len == 0) ≡ true → hexdump mem ptr len ≡ some []
unfolding hexdump
hexdump_empty mem ptr len e = rw e refl

hexdump_some :
    (mem : Memory) (ptr len : ℕ)
    → (len == 0) ≡ false
    → ptr + len + 15 < 2 ^ 64
    → hexdump mem ptr len
      ≡ lines mem ptr (ptr + len) (len / 16 + 3) (ptr / 16 * 16) ((ptr + len + 15) / 16 * 16)
unfolding hexdump
hexdump_some mem ptr len e word =
    let same : u64 (ptr + len) ≡ ptr + len = omega (arith, word) in
    let rounded : u64 (ptr + len + 15) ≡ ptr + len + 15 = omega (arith, word) in
    rw (e, same, rounded) refl

-- A dump of a piece of memory that does not reach the end of the address space ends. It has a row for each 16 bytes of
-- memory that the piece touches and none for an empty one: for each of the 16 addresses two hexadecimal digits
-- with the byte's value, blank outside of the piece, then the 16 bytes themselves, a space where a byte is outside
-- or cannot be printed, and a newline, 65 characters in all.
pub hexdump-Rows :
    (mem : Memory) (ptr len : ℕ)
    → ((a : ℕ) → mem a < 256)
    → ptr + len + 15 < 2 ^ 64
    → (s : Chars) × (n : ℕ) × (hexdump mem ptr len ≡ some s)
      × (n ≡ (if len == 0 then 0 else (ptr + len + 15) / 16 - ptr / 16))
      × Rows mem ptr (ptr + len) (ptr / 16 * 16) n s
      × (length s ≡ 65 * n)
hexdump-Rows mem ptr len bytes word = elim (Bool-cases (len == 0)) [
  | inl e ↦ ([], 0, hexdump_empty mem ptr len e, rw e refl, no_rows, refl)
  | inr e ↦
      let n : ℕ = (ptr + len + 15) / 16 - ptr / 16 in
      let dumped =
        lines-Rows mem bytes ptr (ptr + len) (len / 16 + 3) (ptr / 16 * 16) n
          ((ptr + len + 15) / 16 * 16) (omega arith) (omega arith) (omega arith) in
      (
        dumped.0,
        n,
        hexdump_some mem ptr len e word ∙ dumped.1,
        rw e refl,
        dumped.2,
        length-Rows mem bytes ptr (ptr + len) (ptr / 16 * 16) n dumped.0 dumped.2,
      )
]
