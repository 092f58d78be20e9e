-- ===== src/Ps2/Refine.antt =====
-- `read_key` and `key_available` of kernel/ps2.cpp against a stream of scan codes.
use attos.Common.{
  ℕ, zero, suc, ◌<◌, ◌≡◌, refl, ap, sym, ◌∙◌, List, [], ◌∷◌, ◌++◌, true, false, ◌&&◌, ◌==◌, ◌!=◌,
  ltb, leb, if◌then◌else◌, Option, none, some, arith, length, ◌⊎◌, inl, inr, Bool-cases,
}
use attos.Ps2.Buffer.{
  Queue, IsQueue, size, empty, push, pop, contents, length-contents, contents-push, contents-pop,
}
use attos.Ps2.Keys.{translate, get_scan_key, Reading, key, waiting, with_scan_key, read_key}

-- The first key of a stream of scan codes, and the rest of the stream; `skip` codes are ignored first.
-- 0xE0 takes one code with it, and 0xE1 two; keys count when they are released.
unfoldable pub next_key : ℕ → List ℕ → Option (ℕ × List ℕ)
next_key skip [] = none
next_key (suc skip) (c ∷ cs) = next_key skip cs
next_key zero (c ∷ cs) =
    let again = next_key 0 cs in
    let after_e0 = next_key 1 cs in
    let after_e1 = next_key 2 cs in
    if c == 0xE0
    then after_e0
    else if c == 0xE1
    then after_e1
    else if leb 0x80 c && translate c != 0
    then some (translate c, cs)
    else again

-- A reading gives the key that is next in the stream, and leaves the rest of the stream.
abbrev pub Agrees : Option (ℕ × List ℕ) → Reading → Type 0
Agrees none r = r ≡ waiting
Agrees (some n) r =
    (arrivals : List ℕ) × (q : Queue) × (r ≡ key n.0 arrivals q)
    × (contents q ++ arrivals ≡ n.1)
    × IsQueue q

-- What a scan code is taken from: the buffer and then the arrivals.
Scanned : List ℕ → Queue → Type 0
Scanned arrivals q =
    ((contents q ++ arrivals ≡ []) × (get_scan_key arrivals q ≡ none))
    ⊎ ((c : ℕ) × (arrivals' : List ℕ) × (q' : Queue) × (contents q ++ arrivals
          ≡ c ∷ (contents q' ++ arrivals'))
        × (get_scan_key arrivals q ≡ some (c, arrivals', q'))
        × IsQueue q')

get_scan_key_buffered :
    (arrivals : List ℕ) (q : Queue) (n : ℕ)
    → size q ≡ suc n
    → get_scan_key arrivals q ≡ some ((pop q).0, arrivals, (pop q).1)
unfolding get_scan_key empty
get_scan_key_buffered [] q n e = ground arith
get_scan_key_buffered (a ∷ later) q n e = ground arith

scanned :
    (arrivals : List ℕ) (q : Queue) (cs : List ℕ) → IsQueue q → contents q ≡ cs → Scanned arrivals q
unfolding Scanned get_scan_key empty
scanned [] q [] v e =
    let none_in : size q ≡ 0 = sym (length-contents q) ∙ ap length e in
    inl (rw e refl, ground (arith, none_in))
scanned (a ∷ later) q [] v e =
    let none_in : size q ≡ 0 = sym (length-contents q) ∙ ap length e in
    let pushed = contents-push q a v (omega (arith, none_in)) in
    let popped = contents-pop (push q a) a [] pushed.0 (pushed.1 ∙ ap (λ l. l ++ a ∷ []) e) in
    inr (
      a,
      later,
      (pop (push q a)).1,
      rw (e, popped.1) refl,
      ground (arith, none_in, popped.0),
      popped.2,
    )
scanned arrivals q (c ∷ cs) v e =
    let popped = contents-pop q c cs v e in
    inr (
      c,
      arrivals,
      (pop q).1,
      rw (e, popped.1) refl,
      get_scan_key_buffered arrivals q (length cs) (sym (length-contents q) ∙ ap length e)
          ∙ ap (λ x. some (x, arrivals, (pop q).1)) popped.0,
      popped.2,
    )

-- What `skip` codes are read and ignored ahead of `read_key`.
reading_after : ℕ → ℕ → List ℕ → Queue → Reading
reading_after fuel zero arrivals q = read_key fuel arrivals q
reading_after fuel (suc skip) arrivals q =
    with_scan_key (get_scan_key arrivals q) λ c. reading_after fuel skip

abbrev AgreesFrom : ℕ → Type 0
AgreesFrom fuel =
    (arrivals : List ℕ) (q : Queue)
    → IsQueue q
    → length (contents q ++ arrivals) < fuel
    → Agrees (next_key 0 (contents q ++ arrivals)) (read_key fuel arrivals q)

skipped :
    (fuel skip : ℕ) (arrivals : List ℕ) (q : Queue)
    → AgreesFrom fuel
    → IsQueue q
    → length (contents q ++ arrivals) < fuel
    → Agrees (next_key skip (contents q ++ arrivals)) (reading_after fuel skip arrivals q)
unfolding next_key reading_after Scanned
skipped fuel zero arrivals q ih v lt = ih arrivals q v lt
skipped fuel (suc skip) arrivals q ih v lt = elim (scanned arrivals q (contents q) v refl) [
  | inl (e, g) ↦ rw (e, g) refl
  | inr (c, arrivals', q', e, g, v') ↦
      rw (e, g) (skipped fuel skip arrivals' q' ih v' (omega (arith, lt, ap length e)))
]

after : ℕ → ℕ → List ℕ → Queue → Reading
after fuel c arrivals q =
    if c == 0xE0
    then reading_after fuel 1 arrivals q
    else if c == 0xE1
    then reading_after fuel 2 arrivals q
    else if ltb c 0x80
    then read_key fuel arrivals q
    else if translate c != 0
    then key (translate c) arrivals q
    else read_key fuel arrivals q

read_key-suc :
    (fuel c : ℕ) (arrivals arrivals' : List ℕ) (q q' : Queue)
    → get_scan_key arrivals q ≡ some (c, arrivals', q')
    → read_key (suc fuel) arrivals q ≡ after fuel c arrivals' q'
unfolding read_key reading_after after
read_key-suc fuel c arrivals arrivals' q q' g = rw g refl

read_key_waits :
    (fuel : ℕ) (arrivals : List ℕ) (q : Queue)
    → get_scan_key arrivals q ≡ none
    → read_key (suc fuel) arrivals q ≡ waiting
unfolding read_key
read_key_waits fuel arrivals q g = rw g refl

-- A code that has been read, with the readings that follow it.
chosen :
    (fuel c : ℕ) (arrivals : List ℕ) (q : Queue)
    → AgreesFrom fuel
    → IsQueue q
    → length (contents q ++ arrivals) < fuel
    → Agrees (next_key 0 (c ∷ (contents q ++ arrivals))) (after fuel c arrivals q)
unfolding next_key after
chosen fuel c arrivals q ih v lt =
    let one = skipped fuel 1 arrivals q ih v lt in
    let two = skipped fuel 2 arrivals q ih v lt in
    let again = ih arrivals q v lt in
    elim (Bool-cases (c == 0xE0)) [
      | inl e ↦ rw e one
      | inr e ↦ elim (Bool-cases (c == 0xE1)) [
        | inl e1 ↦ rw (e, e1) two
        | inr e1 ↦ elim (Bool-cases (ltb c 0x80)) [
          | inl low ↦ (let high : leb 0x80 c ≡ false = ground arith in rw (e, e1, low, high) again)
          | inr low ↦
              (let high : leb 0x80 c ≡ true = ground arith in
                elim (Bool-cases (translate c != 0)) [
                  | inl t ↦ rw (e, e1, low, high, t) (arrivals, q, refl, refl, v)
                  | inr t ↦ rw (e, e1, low, high, t) again
                ])
        ]
      ]
    ]

-- `read_key` gives the first key of what is in the buffer and what arrives behind it, leaves the
-- rest of both, and waits just when there is no key among them, with fuel for one round more than
-- there are scan codes.
pub read_key-next_key :
    (fuel : ℕ) (arrivals : List ℕ) (q : Queue)
    → IsQueue q
    → length (contents q ++ arrivals) < fuel
    → Agrees (next_key 0 (contents q ++ arrivals)) (read_key fuel arrivals q)
unfolding Scanned next_key
read_key-next_key zero arrivals q v lt = absurd (omega arith)
read_key-next_key (suc fuel) arrivals q v lt = elim (scanned arrivals q (contents q) v refl) [
  | inl (e, g) ↦ rw e (read_key_waits fuel arrivals q g)
  | inr (c, arrivals', q', e, g, v') ↦
      rw (e, read_key-suc fuel c arrivals arrivals' q q' g)
        (chosen fuel c arrivals' q' (read_key-next_key fuel) v' (omega (arith, lt, ap length e)))
]
