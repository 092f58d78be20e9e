-- ===== src/OutStream/Number.antt =====
-- Numbers printed and read back.
use native.Mathlib.Nat.{div-add-mod', mod-lt, mul-le-mul_left}
use attos.Common.{
  ℕ, zero, suc, ◌+◌, ◌-◌, ◌*◌, ◌/◌, ◌%◌, ◌^◌, ◌≤◌, ◌<◌, ◌≡◌, ◌≢◌, refl, ap, sym, ◌∙◌, [], ◌∷◌, ◌++◌,
  ◌==◌, ltb, leb, ◌&&◌, ◌||◌, Option, none, ◌>>=◌, if◌then◌else◌, some, arith, length, replicate,
  inl, inr, Bool-cases,
}
use attos.OutStream.Format.{Chars, write_many, digit_char, digits, format_number}

-- The value of a digit by its ASCII code, `0` to `9` and then `a` to `z`, if it is one of the base, and the
-- value of a numeral behind what has been read of it.
abbrev pub digit_value : ℕ → ℕ → Option ℕ
digit_value base c =
    let value = if ltb c 58 then c - 48 else c - 87 in
    if ((leb 48 c && ltb c 58) || (leb 97 c && ltb c 123)) && ltb value base
    then some value
    else none

abbrev pub value_from : ℕ → ℕ → Chars → Option ℕ
value_from base acc [] = some acc
value_from base acc (c ∷ cs) =
    digit_value base c >>= (λ value. value_from base (acc * base + value) cs)

digit_value-digit_char :
    (base c : ℕ) → base ≤ 36 → c < base → digit_value base (digit_char c) ≡ some c
unfolding digit_char
digit_value-digit_char base c most lt = ground arith

half : (base n q r : ℕ) → 2 ≤ base → q * base + r ≡ n → 2 * q ≤ n
half base n q r h e = omega (arith, mul-le-mul_left q h, e)

quotient_fits : (room number base : ℕ) → 2 ≤ base → number < 2 ^ suc room → number / base < 2 ^ room
quotient_fits room number base two lt =
    let power : 2 ^ suc room ≡ 2 * 2 ^ room = omega arith in
    omega (
      arith,
      half base number (number / base) (number % base) two (div-add-mod' number base),
      lt,
      power,
    )

room_left : (room q : ℕ) → q < 2 ^ room → q ≢ 0 → 0 < room
room_left zero q lt n = absurd (omega arith)
room_left (suc room) q lt n = omega arith

digit_step :
    (base number : ℕ) (buffer : Chars)
    → 2 ≤ base
    → base ≤ 36
    → value_from base (number / base) (digit_char (number % base) ∷ buffer)
      ≡ value_from base number buffer
digit_step base number buffer two most =
    rw
      (
        digit_value-digit_char base (number % base) most (mod-lt number (omega (arith, two))),
        div-add-mod' number base,
      )
      refl

pub digits_value :
    (room number base : ℕ) (buffer : Chars)
    → 2 ≤ base
    → base ≤ 36
    → number < 2 ^ room
    → 0 < room
    → (s : Chars) × (digits room number base buffer ≡ some s)
      × (value_from base 0 s ≡ value_from base number buffer)
      × (length s ≤ room + length buffer)
unfolding digits
digits_value zero number base buffer two most lt pos = absurd (omega arith)
digits_value (suc room) number base buffer two most lt pos =
    elim (Bool-cases (number / base == 0)) [
      | inl last ↦
          let q : number / base ≡ 0 = ground arith in
          (
            digit_char (number % base) ∷ buffer,
            rw last refl,
            ap (λ v. value_from base v (digit_char (number % base) ∷ buffer)) (sym q)
                ∙ digit_step base number buffer two most,
            omega arith,
          )
      | inr more ↦
          let q : number / base ≢ 0 = ground arith in
          let fits = quotient_fits room number base two lt in
          let rest =
            digits_value room (number / base) base (digit_char (number % base) ∷ buffer) two most
              fits (room_left room (number / base) fits q) in
          (
            rest.0,
            rw more rest.1,
            rest.2 ∙ digit_step base number buffer two most,
            omega (arith, rest.3),
          )
    ]

-- Every 64-bit number is printed in any base from 2 to 36, within the buffer: the digits are at most
-- 64, padded by the fill character to the width, and read back they give the number.
pub format_number_value :
    (number base min_width fill : ℕ)
    → 2 ≤ base
    → base ≤ 36
    → number < 2 ^ 64
    → (s : Chars) × (format_number number base min_width fill
        ≡ some (replicate (min_width - length s) fill ++ s))
      × (value_from base 0 s ≡ some number)
      × (length s ≤ 64)
unfolding format_number write_many
format_number_value number base min_width fill two most lt =
    let printed = digits_value 64 number base [] two most lt (omega arith) in
    (printed.0, rw printed.1 refl, printed.2, omega (arith, printed.3))
