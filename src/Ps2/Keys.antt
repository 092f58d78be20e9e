-- ===== src/Ps2/Keys.antt =====
-- The keyboard controller of kernel/ps2.cpp: its interrupt handler, and the translation of scan codes.
use attos.Common.{
  ℕ, zero, suc, ◌-◌, ◌%◌, List, [], ◌∷◌, Bool, false, ◌&&◌, ◌||◌, ◌==◌, ◌!=◌, ltb, if◌then◌else◌,
  Option, none, some, ◌>>◌, require, get_or,
}
use attos.Ps2.Buffer.{Queue, empty, full, push, pop, contents}

-- `scan_code_set_1`, with `sc_invalid` as 0. Its last initializer stands at `scan_code_set_1_size`.
abbrev pub scan_code_set_1 : List ℕ
scan_code_set_1 =
    0 ∷ 27 ∷ 49 ∷ 50 ∷ 51 ∷ 52 ∷ 53 ∷ 54 ∷ 55 ∷ 56 ∷ 57 ∷ 48 ∷ 45 ∷ 61 ∷ 8 ∷ 9 ∷ 81 ∷ 87 ∷ 69 ∷ 82
    ∷ 84 ∷ 89 ∷ 85 ∷ 73 ∷ 79 ∷ 80 ∷ 91 ∷ 93 ∷ 10 ∷ 0 ∷ 65 ∷ 83 ∷ 68 ∷ 70 ∷ 71 ∷ 72 ∷ 74 ∷ 75 ∷ 76
    ∷ 59 ∷ 39 ∷ 96 ∷ 0 ∷ 92 ∷ 90 ∷ 88 ∷ 67 ∷ 86 ∷ 66 ∷ 78 ∷ 77 ∷ 44 ∷ 46 ∷ 47 ∷ 0 ∷ 0 ∷ 0 ∷ 32 ∷ 0
    ∷ 0 ∷ 0 ∷ 0 ∷ 0 ∷ 0 ∷ 0 ∷ 0 ∷ 0 ∷ 0 ∷ 0 ∷ 0 ∷ 0 ∷ 55 ∷ 56 ∷ 57 ∷ 45 ∷ 52 ∷ 53 ∷ 54 ∷ 43 ∷ 49
    ∷ 50 ∷ 51 ∷ 48 ∷ 46 ∷ 0 ∷ 0 ∷ 0 ∷ 0 ∷ 90 ∷ []

abbrev pub scan_code_set_1_size : ℕ
scan_code_set_1_size = 0x58

-- `isr`: `status` and `data` are what the ports give. A byte that finds the buffer full is lost.
unfoldable pub isr : ℕ → ℕ → Queue → Option Queue
isr status data_byte q = require (status % 2 == 1) >> some (if full q then q else push q data_byte)

-- The key of a released scan code, and 0 where it is ignored.
unfoldable pub translate : ℕ → ℕ
translate sk =
    if ltb (sk - 0x80) scan_code_set_1_size then get_or scan_code_set_1 (sk - 0x80) 0 else 0

-- `get_scan_key`. An empty buffer halts the processor, until an interrupt brings one of `arrivals`.
unfoldable pub get_scan_key : List ℕ → Queue → Option (ℕ × List ℕ × Queue)
get_scan_key [] q = if empty q then none else some ((pop q).0, [], (pop q).1)
get_scan_key (a ∷ later) q =
    if empty q
    then some ((pop (push q a)).0, later, (pop (push q a)).1)
    else some ((pop q).0, a ∷ later, (pop q).1)

-- What `read_key` comes to: a key, or a wait for an interrupt that does not come; `unfinished` when
-- the fuel of its loop has run out.
pub data Reading : Type 0 where
  key : ℕ → List ℕ → Queue → Reading
  waiting unfinished : Reading

abbrev pub with_scan_key : Option (ℕ × List ℕ × Queue) → (ℕ → List ℕ → Queue → Reading) → Reading
with_scan_key none k = waiting
with_scan_key (some r) k = k r.0 r.1 r.2

unfoldable pub read_key : ℕ → List ℕ → Queue → Reading
read_key zero arrivals q = unfinished
read_key (suc fuel) arrivals q = with_scan_key (get_scan_key arrivals q) λ sk arrivals1 q1.
    let again = read_key fuel arrivals1 q1 in
    let after_e0 = with_scan_key (get_scan_key arrivals1 q1) λ sk2. read_key fuel in
    let after_e1 =
      with_scan_key (get_scan_key arrivals1 q1)
        λ sk2 arrivals2 q2. with_scan_key (get_scan_key arrivals2 q2) λ sk3. read_key fuel in
    if sk == 0xE0
    then after_e0
    else if sk == 0xE1
    then after_e1
    else if ltb sk 0x80
    then again
    else if translate sk != 0
    then key (translate sk) arrivals1 q1
    else again

abbrev pub is_release : ℕ → Bool
is_release c = ltb 0x80 c && ltb c 0xE0

abbrev pub any_release : List ℕ → Bool
any_release [] = false
any_release (c ∷ cs) = is_release c || any_release cs

unfoldable pub key_available : Queue → Bool
key_available q = any_release (contents q)
