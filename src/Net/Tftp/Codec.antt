-- ===== src/Net/Tftp/Codec.antt =====
-- TFTP packets as lists of bytes: the `put` and `get` functions of attos/net/tftp.h and tftp.cpp.
use mathlib.Core.List.{append_assoc}
use attos.Common.{
  ℕ, ◌+◌, ◌-◌, ◌*◌, ◌/◌, ◌^◌, ◌<◌, ◌≡◌, refl, ap, ◌∙◌, List, [], ◌∷◌, ◌++◌, Option, none, some,
  Bool, leb, if◌then◌else◌, ◌==◌, ◌>>=◌, arith, u8, u16, ◌≢◌, ◌⊎◌,
}

abbrev pub Bytes : Type 0
Bytes = List ℕ

abbrev pub block_size : ℕ
block_size = 512

-- `UINT16_MAX - 1` blocks
unfoldable pub legal_size : ℕ → Bool
legal_size size = leb size (block_size * (2 ^ 16 - 1 - 1))

unfoldable pub block_count : ℕ → ℕ
block_count size = u16 ((size + 512) / block_size)

pub data Opcode : Type 0 where
  rrq wrq data_op ack error : Opcode
  other : ℕ → Opcode

abbrev pub of_opcode : Opcode → ℕ
of_opcode rrq = 1
of_opcode wrq = 2
of_opcode data_op = 3
of_opcode ack = 4
of_opcode error = 5
of_opcode (other n) = n

-- `static_cast<opcode>` of a `uint16_t`
unfoldable pub to_opcode : ℕ → Opcode
to_opcode n =
    if n == 1
    then rrq
    else if n == 2
    then wrq
    else if n == 3
    then data_op
    else if n == 4
    then ack
    else if n == 5
    then error
    else other n

unfoldable pub put_u16 : ℕ → Bytes
put_u16 x = u8 (x / 2 ^ 8) ∷ u8 x ∷ []

unfoldable pub put_opcode : Opcode → Bytes
put_opcode op = put_u16 (of_opcode op)

-- A C string is the list of its bytes, none of them 0; the terminator is copied too.
unfoldable pub put_string : Bytes → Bytes
put_string s = s ++ 0 ∷ []

unfoldable pub put_error_reply : ℕ → Bytes → Bytes
put_error_reply ec msg = put_opcode error ++ put_u16 (u16 ec) ++ put_string msg

-- The value, and what is left of the packet.
unfoldable pub get_u16 : Bytes → Option (ℕ × Bytes)
get_u16 [] = none
get_u16 (a ∷ []) = none
get_u16 (a ∷ b ∷ rest) = some (u16 (a * 256 + b), rest)

unfoldable pub get_opcode : Bytes → Option (Opcode × Bytes)
get_opcode bs = do (x, rest) ← get_u16 bs; some (to_opcode x, rest)

unfoldable pub get_string : Bytes → Option (Bytes × Bytes)
get_string [] = none
get_string (b ∷ rest) =
    let later = get_string rest >>= (λ r. some (b ∷ r.0, r.1)) in
    if b == 0 then some ([], rest) else later

-- Every 16-bit number is read back as it was put, whatever follows it.
pub get_u16-put_u16 :
    (x : ℕ) (rest : Bytes) → x < 2 ^ 16 → get_u16 (put_u16 x ++ rest) ≡ some (x, rest)
unfolding get_u16 put_u16
get_u16-put_u16 x rest h = ground arith

abbrev pub NoZero : Bytes → Type 0
NoZero [] = Unit {0}
NoZero (b ∷ bs) = (b ≢ 0) × NoZero bs

get_string-put_string :
    (s rest : Bytes) → NoZero s → get_string (put_string s ++ rest) ≡ some (s, rest)
unfolding get_string put_string
get_string-put_string [] rest h = refl
get_string-put_string (b ∷ bs) rest h = ground (arith, get_string-put_string bs rest h.1)

-- The opcodes that are not one of the five are kept by their number.
abbrev pub IsOpcode : Opcode → Type 0
IsOpcode (other n) = ((5 < n) × (n < 2 ^ 16)) ⊎ (n ≡ 0)
IsOpcode _ = Unit {0}

to_opcode-of_opcode : (op : Opcode) → IsOpcode op → to_opcode (of_opcode op) ≡ op
unfolding to_opcode
to_opcode-of_opcode (other n) h = ground arith
to_opcode-of_opcode rrq h = refl
to_opcode-of_opcode wrq h = refl
to_opcode-of_opcode data_op h = refl
to_opcode-of_opcode ack h = refl
to_opcode-of_opcode error h = refl

of_opcode-lt : (op : Opcode) → IsOpcode op → of_opcode op < 2 ^ 16
of_opcode-lt (other n) h = ground arith
of_opcode-lt rrq h = omega arith
of_opcode-lt _ h = omega arith

pub get_opcode-put_opcode :
    (op : Opcode) (rest : Bytes)
    → IsOpcode op
    → get_opcode (put_opcode op ++ rest) ≡ some (op, rest)
unfolding get_opcode put_opcode
get_opcode-put_opcode op rest h =
    rw (get_u16-put_u16 (of_opcode op) rest (of_opcode-lt op h), to_opcode-of_opcode op h)

-- What `tftp_in` reads of an error packet, behind its opcode.
unfoldable pub get_error : Bytes → Option (ℕ × Bytes)
get_error bs = do (code, rest) ← get_u16 bs; (text, _) ← get_string rest; some (code, text)

-- An error reply is read back, its code and its message, whatever follows it.
pub get-put_error_reply :
    (ec : ℕ) (msg rest : Bytes)
    → ec < 2 ^ 16
    → NoZero msg
    → ((get_opcode (put_error_reply ec msg ++ rest))
        ≡ some (error, put_u16 ec ++ (put_string msg ++ rest)))
      × (get_error (put_u16 ec ++ (put_string msg ++ rest)) ≡ some (ec, msg))
unfolding put_error_reply get_error
get-put_error_reply ec msg rest h z = (
  rw (append_assoc (put_opcode error ++ put_u16 (u16 ec)) (put_string msg) rest) (
      rw (append_assoc (put_opcode error) (put_u16 (u16 ec)) (put_string msg ++ rest)) (
        get_opcode-put_opcode error _ tt
        ∙ ap (λ k. some (error, put_u16 k ++ (put_string msg ++ rest))) (omega arith))),
  rw (get_u16-put_u16 ec (put_string msg ++ rest) h, get_string-put_string msg rest z),
)
