-- ===== src/Ps2/Available.antt =====
-- `key_available` and `isr` of kernel/ps2.cpp against `read_key`.
use attos.Common.{
  ℕ, zero, suc, ◌≤◌, ◌<◌, ◌≡◌, ◌≢◌, refl, ap, subst, sym, ◌∙◌, List, [], ◌∷◌, ◌++◌, true, ◌==◌,
  Option, none, some, arith, ◌⊎◌, inl, inr, Bool-cases,
}
use mathlib.Core.List.{append-nil}
use attos.Ps2.Buffer.{
  Queue, IsQueue, capacity, size, full, push, contents, length-contents, contents-push,
}
use attos.Ps2.Keys.{isr, translate, key, waiting, read_key, is_release, any_release, key_available}
use attos.Ps2.Refine.{next_key, Agrees, read_key-next_key}

-- An interrupt for which the status port says that there is data stores the byte behind all others;
-- only a full buffer loses it, and then nothing else changes.
pub isr-contents :
    (status data_byte : ℕ) (q q' : Queue)
    → IsQueue q
    → isr status data_byte q ≡ some q'
    → IsQueue q'
      × (((size q < capacity) × (contents q' ≡ contents q ++ data_byte ∷ []))
          ⊎ ((size q ≡ capacity) × (q' ≡ q)))
unfolding isr full
isr-contents status data_byte q q' v e = elim (Bool-cases (size q == capacity)) [
  | inl f ↦ let same : q ≡ q' = ground arith in (subst IsQueue same v, inr (ground arith, sym same))
  | inr f ↦
      let below : size q < capacity = ground (arith, v.bounded) in
      let same : push q data_byte ≡ q' = ground arith in
      let pushed = contents-push q data_byte v below in
      (
        subst IsQueue same pushed.0,
        inl (below, subst (λ p. contents p ≡ contents q ++ data_byte ∷ []) same pushed.1),
      )
]

translated_is_release : (c : ℕ) → 0x80 ≤ c → translate c ≢ 0 → is_release c ≡ true
unfolding translate
translated_is_release c h n = ground arith

next_key_release :
    (skip : ℕ) (cs : List ℕ) (r : ℕ × List ℕ) → next_key skip cs ≡ some r → any_release cs ≡ true
unfolding next_key
next_key_release skip [] r e = absurd cc
next_key_release (suc skip) (c ∷ cs) r e = ground (arith, next_key_release skip cs r e)
next_key_release zero (c ∷ cs) r e = ground (
  arith,
  next_key_release 0 cs r,
  next_key_release 1 cs r,
  next_key_release 2 cs r,
  translated_is_release c,
)

key_given :
    (fuel k : ℕ) (arrivals : List ℕ) (q q' : Queue)
    → read_key fuel [] q ≡ key k arrivals q'
    → (n : Option (ℕ × List ℕ)) → next_key 0 (contents q ++ []) ≡ n
    → Agrees n (read_key fuel [] q)
    → any_release (contents q) ≡ true
key_given fuel k arrivals q q' e none s w = absurd cc
key_given fuel k arrivals q q' e (some r) s w =
    next_key_release 0 (contents q) r (ap (next_key 0) (sym (append-nil (contents q))) ∙ s)

-- A key that `read_key` can give from the buffer alone is announced: `key_available` holds.
pub read_key-key_available :
    (fuel k : ℕ) (arrivals : List ℕ) (q q' : Queue)
    → IsQueue q
    → size q < fuel
    → read_key fuel [] q ≡ key k arrivals q'
    → key_available q ≡ true
unfolding key_available
read_key-key_available fuel k arrivals q q' v lt e =
    key_given fuel k arrivals q q' e (next_key 0 (contents q ++ [])) refl
      (read_key-next_key fuel [] q v (rw (append-nil (contents q), length-contents q) lt))

-- The announcement may be wrong: with the release of a key that `read_key` ignores as all that the buffer
-- holds, `key_available` holds and `read_key` waits.
pub ignored_release_waits :
    (fuel c : ℕ) (q : Queue)
    → IsQueue q
    → contents q ≡ c ∷ []
    → 0x80 < c
    → c < 0xE0
    → translate c ≡ 0
    → (key_available q ≡ true) × (read_key (suc (suc fuel)) [] q ≡ waiting)
unfolding key_available next_key
ignored_release_waits fuel c q v e lo hi t =
    let none_next : next_key 0 (contents q ++ []) ≡ none = rw e (ground arith) in
    (
      rw e (ground arith),
      subst (λ n. Agrees n (read_key (suc (suc fuel)) [] q)) none_next
          (read_key-next_key (suc (suc fuel)) [] q v (rw e (omega arith))),
    )
