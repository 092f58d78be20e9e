-- ===== src/OutStream/Hex.antt =====
-- Hexadecimal numbers of a fixed width: `as_hex` of attos/out_stream.h.
use attos.Common.{
  ℕ, zero, suc, ◌+◌, ◌-◌, ◌*◌, ◌/◌, ◌%◌, ◌^◌, ◌≤◌, ◌<◌, ◌≡◌, refl, ◌∙◌, [], ◌∷◌, ◌++◌, true, ◌==◌,
  some, arith, length, replicate, length-append, length-replicate, inl, inr, Bool-cases,
}
use attos.OutStream.Format.{
  Chars, write_many, digit_char, digits, format_number, as_hex, put_formatted,
}
use attos.OutStream.Number.{value_from, digits_value}

digits_short :
    (k room number : ℕ) (buffer s : Chars)
    → number < 16 ^ suc k
    → digits room number 16 buffer ≡ some s
    → length s ≤ suc k + length buffer
unfolding digits
digits_short k zero number buffer s lt e = absurd cc
digits_short zero (suc room) number buffer s lt e =
    let last : (number / 16 == 0) ≡ true = ground arith in
    let got : some (digit_char (number % 16) ∷ buffer) ≡ some s = rw last at e in
    ground (arith, got)
digits_short (suc k) (suc room) number buffer s lt e = elim (Bool-cases (number / 16 == 0)) [
  | inl last ↦
      let got : some (digit_char (number % 16) ∷ buffer) ≡ some s = rw last at e in
      ground (arith, got)
  | inr more ↦
      let power : 16 ^ suc (suc k) ≡ 16 * 16 ^ suc k = omega arith in
      omega (
        arith,
        digits_short k room (number / 16) (digit_char (number % 16) ∷ buffer) s
            (omega (arith, lt, power)) (rw more at e),
      )
]

value_from-replicate :
    (n : ℕ) (s : Chars) → value_from 16 0 (replicate n 48 ++ s) ≡ value_from 16 0 s
value_from-replicate zero s = refl
value_from-replicate (suc n) s = value_from-replicate n s

-- A number that fits in `k + 1` hexadecimal digits is printed in just so many.
pub hex_width :
    (k number : ℕ)
    → number < 16 ^ suc k
    → number < 2 ^ 64
    → (s : Chars) × (format_number number 16 (suc k) 48 ≡ some s)
      × (length s ≡ suc k)
      × (value_from 16 0 s ≡ some number)
unfolding format_number write_many
hex_width k number lt word =
    let printed = digits_value 64 number 16 [] (omega arith) (omega arith) word (omega arith) in
    let short : length printed.0 ≤ suc k =
      omega (arith, digits_short k 64 number [] printed.0 lt printed.1) in
    let zeros : Chars = replicate (suc k - length printed.0) 48 in
    (
      zeros ++ printed.0,
      rw printed.1 refl,
      omega (
        arith,
        length-append zeros printed.0,
        length-replicate {A = ℕ} (suc k - length printed.0) 48,
        short,
      ),
      value_from-replicate (suc k - length printed.0) printed.0 ∙ printed.2,
    )

-- A 64-bit number in hexadecimal is printed as two halves of eight digits with a mark between them, and
-- each half read back gives its 32 bits of the number.
pub put_formatted-as_hex :
    (number : ℕ)
    → number < 2 ^ 64
    → (high low : Chars) × (put_formatted (as_hex 8 number) ≡ some (high ++ 96 ∷ low))
      × (length high ≡ 8)
      × (length low ≡ 8)
      × (value_from 16 0 high ≡ some (number / 2 ^ 32))
      × (value_from 16 0 low ≡ some (number % 2 ^ 32))
unfolding put_formatted
put_formatted-as_hex number lt =
    let h = hex_width 7 (number / 2 ^ 32) (omega arith) (omega arith) in
    let l = hex_width 7 (number % 2 ^ 32) (omega arith) (omega arith) in
    (h.0, l.0, rw (h.1, l.1) refl, h.2, l.2, h.3, l.3)

-- A byte is printed as two digits.
pub put_formatted_byte :
    (b : ℕ)
    → b < 256
    → (s : Chars) × (put_formatted (as_hex 1 b) ≡ some s)
      × (length s ≡ 2)
      × (value_from 16 0 s ≡ some b)
unfolding put_formatted
put_formatted_byte b lt = hex_width 1 b (omega arith) (omega arith)
