-- ===== src/Net/Dhcp/Options.antt =====
-- The option loop of `parse_reply`: its end, and options that it does not know.
use attos.Common.{
  ℕ, zero, suc, ◌+◌, ◌<◌, ◌≡◌, refl, ◌==◌, true, false, ◌∷◌, if◌then◌else◌, leb, ltb, length, drop,
  arith, Bool-cases, inl, inr, length-drop, fun_ext, ap, sym, ◌∙◌, ltb→lt,
}
use attos.Net.Wire.{Bytes, byte_at, require, ◌>>◌}
use attos.Net.Dhcp.Reply.{
  ParseResult, Progress, finished, spinning, and_then, on_option, at_end, parse_options, padding,
  end_option,
}

-- The loop never gets past a padding option that is not the last byte: no fuel is enough.
pub padding_spins :
    (fuel : ℕ) (res : ParseResult) (b : ℕ) (rest : Bytes)
    → parse_options fuel res (padding ∷ b ∷ rest) ≡ spinning
unfolding parse_options
padding_spins zero res b rest = refl
padding_spins (suc fuel) res b rest = ground (arith, padding_spins fuel res b rest)

padding_spins_at :
    (fuel : ℕ) (res : ParseResult) (bs : Bytes)
    → 1 < length bs
    → byte_at bs 0 ≡ padding
    → parse_options fuel res bs ≡ spinning
unfolding parse_options
padding_spins_at zero res bs h e = refl
padding_spins_at (suc fuel) res bs h e = ground (arith, padding_spins_at fuel res bs h e)

-- What a round does with an option that is no padding.
abbrev after_option :
    ParseResult → Bytes → (ParseResult → Progress ParseResult) → Progress ParseResult
after_option res bs k =
    if byte_at bs 0 == end_option
    then finished (at_end res bs)
    else and_then
        (require (leb (byte_at bs 1 + 2) (length bs))
          >> on_option res (byte_at bs 0) (byte_at bs 1) (drop 2 bs))
        k

parse_options-suc :
    (fuel : ℕ) (res : ParseResult) (bs : Bytes)
    → ltb 1 (length bs) ≡ true
    → (byte_at bs 0 == padding) ≡ false
    → parse_options (suc fuel) res bs
      ≡ after_option res bs λ res'. parse_options fuel res' (drop (byte_at bs 1) (drop 2 bs))
unfolding parse_options
parse_options-suc fuel res bs long other = rw (long, other) refl

parse_options_short :
    (fuel : ℕ) (res : ParseResult) (bs : Bytes)
    → ltb 1 (length bs) ≡ false
    → parse_options (suc fuel) res bs ≡ finished (at_end res bs)
unfolding parse_options
parse_options_short fuel res bs short = rw short refl

-- Fuel beyond the length of the options makes no difference: what still spins spins for ever.
pub parse_options_fuel :
    (f g : ℕ) (res : ParseResult) (bs : Bytes)
    → length bs < f
    → length bs < g
    → parse_options f res bs ≡ parse_options g res bs
parse_options_fuel zero g res bs h k = absurd (omega arith)
parse_options_fuel (suc f) zero res bs h k = absurd (omega arith)
parse_options_fuel (suc f) (suc g) res bs h k = elim (Bool-cases (ltb 1 (length bs))) [
  | inr short ↦ parse_options_short f res bs short ∙ sym (parse_options_short g res bs short)
  | inl long ↦ elim (Bool-cases (byte_at bs 0 == padding)) [
    | inl pad ↦
        padding_spins_at (suc f) res bs (ltb→lt _ _ long) (ground arith)
        ∙ sym (padding_spins_at (suc g) res bs (ltb→lt _ _ long) (ground arith))
    | inr other ↦
        let next = drop (byte_at bs 1) (drop 2 bs) in
        let shorter : length next + 1 < length bs =
          omega
            (arith, ltb→lt _ _ long, length-drop (byte_at bs 1) (drop 2 bs), length-drop 2 bs) in
        parse_options-suc f res bs long other
        ∙ ap (after_option res bs)
            (fun_ext λ res'. parse_options_fuel f g res' next (omega arith) (omega arith))
        ∙ sym (parse_options-suc g res bs long other)
  ]
]
