-- ===== src/OutStream/Format.antt =====
-- What the functions of attos/out_stream.cpp write, as the list of the characters in their order.
use attos.Common.{
  ℕ, zero, suc, ◌+◌, ◌-◌, ◌*◌, ◌/◌, ◌%◌, ◌^◌, List, [], ◌∷◌, ◌++◌, ◌&&◌, ◌==◌, ltb, leb,
  if◌then◌else◌, Option, none, some, length, replicate, u64,
}

abbrev pub Chars : Type 0
Chars = List ℕ

unfoldable pub write_many : ℕ → ℕ → Chars
write_many c count = replicate count c

-- The character of a digit.
unfoldable pub digit_char : ℕ → ℕ
digit_char c = if ltb 9 c then c + (97 - 10) else c + 48

-- The loop of `format_number`, which fills its buffer from the end: `room` is what is left of the 64
-- characters, and `none` a write before the buffer.
unfoldable pub digits : ℕ → ℕ → ℕ → Chars → Option Chars
digits zero number base buffer = none
digits (suc room) number base buffer =
    let more = digits room (number / base) base (digit_char (number % base) ∷ buffer) in
    if number / base == 0 then some (digit_char (number % base) ∷ buffer) else more

abbrev pub buffer_size : ℕ
buffer_size = 64

abbrev pub padded : ℕ → ℕ → Option Chars → Option Chars
padded min_width fill none = none
padded min_width fill (some s) = some (write_many fill (min_width - length s) ++ s)

unfoldable pub format_number : ℕ → ℕ → ℕ → ℕ → Option Chars
format_number number base min_width fill = padded min_width fill (digits buffer_size number base [])

abbrev pub both : Option Chars → Option Chars → Option Chars
both none t = none
both (some s) none = none
both (some s) (some t) = some (s ++ t)

-- `operator<<` of a `uint64_t`.
unfoldable pub put_u64 : ℕ → Option Chars
put_u64 arg = format_number arg 10 0 32

-- `operator<<` of an `int64_t` that is given by its 64 bits; `arg ^ -1` flips them.
unfoldable pub put_i64 : ℕ → Option Chars
put_i64 arg =
    if leb (2 ^ 63) arg
    then both (some (45 ∷ [])) (put_u64 (u64 (2 ^ 64 - 1 - arg + 1)))
    else put_u64 arg

-- `formatted_number`
pub record FormattedNumber : Type 0 where
  pub width : ℕ
  pub fill : ℕ
  pub num : ℕ
  pub base : ℕ

-- `as_hex` of an integer of `size` bytes.
abbrev pub as_hex : ℕ → ℕ → FormattedNumber
as_hex size i = record { width = size * 2; fill = 48; num = i; base = 16 }

-- A hexadecimal number of 16 digits has a mark in its middle.
unfoldable pub put_formatted : FormattedNumber → Option Chars
put_formatted fn =
    if fn.base == 16 && (fn.width == 16 && fn.fill == 48)
    then both (format_number (fn.num / 2 ^ 32) 16 8 48)
        (both (some (96 ∷ [])) (format_number (fn.num % 2 ^ 32) 16 8 48))
    else format_number fn.num fn.base fn.width fn.fill

-- `formatted_string`, its text with the 0 at its end.
pub record FormattedString : Type 0 where
  pub width : ℕ
  pub fill : ℕ
  pub str : Chars
  pub max_width : ℕ

-- The characters ahead of the 0, `max_width` at most.
unfoldable pub text_of : ℕ → Chars → Chars
text_of zero str = []
text_of (suc max_width) [] = []
text_of (suc max_width) (c ∷ str) = if c == 0 then [] else c ∷ text_of max_width str

unfoldable pub put_string : FormattedString → Chars
put_string fs =
    let text = text_of fs.max_width fs.str in
    if ltb (length text) fs.width then text ++ write_many fs.fill (fs.width - length text) else text
