-- ===== src/Containers/History.antt =====
-- Histories of the operations of `kvector` (attos/containers.h), and the memory that they hold.
use attos.Common.{
  ℕ, zero, suc, ◌+◌, ◌-◌, ◌≤◌, ◌≡◌, ap, ◌∙◌, List, [], ◌∷◌, ◌++◌, ◌==◌, if◌then◌else◌, Option, none,
  some, ◌>>=◌, bind-some, ◌*◌, ◌^◌, ◌<◌, ◌≢◌, max, length, take, drop, replicate, arith,
}
use native.Mathlib.Nat.{mul-le-mul_left, mul-le-mul_right}
use attos.Containers.KVector.{
  KVector, HeapCall, kalloc, kfree, new, release, clear, reserve, push_back, resize, erase,
  pop_back, insert, assign,
}

-- The operations of a vector.
pub data Op {ℓ} (A : Type ℓ) : Type ℓ where
  pushes : A → Op A
  resizes reserves erases : ℕ → Op A
  pops clears : Op A
  inserts assigns : List A → Op A

module _ {ℓ} {A : Type ℓ} where
  abbrev pub run_op : ℕ → A → Op A → KVector A → Option (KVector A × List HeapCall)
  run_op size default (pushes x) v = some (push_back size v x)
  run_op size default (resizes n) v = some (resize size default v n)
  run_op size default (reserves n) v = some (reserve size v n)
  run_op size default (erases i) v = erase v i
  run_op size default pops v = pop_back v
  run_op size default clears v = some (clear size v)
  run_op size default (inserts xs) v = some (insert size v xs)
  run_op size default (assigns xs) v = some (assign size v xs)

  -- What an operation is for the elements alone.
  abbrev pub list_op : A → Op A → List A → List A
  list_op default (pushes x) xs = xs ++ x ∷ []
  list_op default (resizes n) xs = take n xs ++ replicate (n - length xs) default
  list_op default (reserves n) xs = xs
  list_op default (erases i) xs = take i xs ++ drop (suc i) xs
  list_op default pops xs = take (length xs - 1) xs
  list_op default clears xs = []
  list_op default (inserts ys) xs = xs ++ ys
  list_op default (assigns ys) xs = ys

  -- The elements that an operation asks room for.
  abbrev pub request : Op A → KVector A → ℕ
  request (pushes x) v = length v.elems + 1
  request (resizes n) v = n
  request (reserves n) v = n
  request (inserts xs) v = length v.elems + length xs
  request (assigns xs) v = length xs
  request _ v = 0

  -- Room for so many elements, for ten, and for twice the present room: no more is ever asked for at once. Its
  -- bytes can be counted in a `size_t`.
  abbrev pub Countable : ℕ → ℕ → KVector A → Type 0
  Countable size n v = size * max n (max 10 (2 * v.room)) < 2 ^ 64

  -- With elements of `size` bytes.
  pub data History (size : ℕ) (default : A) : List A → KVector A → List HeapCall → Type ℓ where
    begin : History size default [] new []
    then_op :
        {xs : List A} {v v' : KVector A} {before calls : List HeapCall} (op : Op A)
        → History size default xs v before
        → Countable size (request op v) v
        → run_op size default op v ≡ some (v', calls)
        → History size default (list_op default op xs) v' (before ++ calls)

-- The first piece of this size is given back.
abbrev pub give_back : ℕ → List ℕ → Option (List ℕ)
give_back n [] = none
give_back n (piece ∷ pieces) =
    let rest = give_back n pieces >>= (λ ps. some (piece ∷ ps)) in
    if piece == n then some pieces else rest

-- The pieces of memory that are held, by their bytes; `none` when one is given back that is not held.
abbrev pub held : List ℕ → List HeapCall → Option (List ℕ)
held pieces [] = some pieces
held pieces (kalloc n ∷ calls) = held (pieces ++ n ∷ []) calls
held pieces (kfree n ∷ calls) = give_back n pieces >>= (λ ps. held ps calls)

pub held-append :
    (before calls : List HeapCall) (n m : List ℕ)
    → held n before ≡ some m
    → held n (before ++ calls) ≡ held m calls
held-append [] calls n m e = ground arith
held-append (kalloc k ∷ before) calls n m e = held-append before calls (n ++ k ∷ []) m e
held-append (kfree k ∷ before) calls n m e =
    let r = bind-some _ _ _ e in
    ap (λ g. g >>= (λ ps. held ps (before ++ calls))) r.1 ∙ held-append before calls r.0 m r.2

-- A vector holds one piece of memory, with room for just its elements' room, or none while it has no room.
abbrev pub pieces_of : ℕ → ℕ → List ℕ
pieces_of size room = if room == 0 then [] else size * room ∷ []

pub held-release : (size room : ℕ) → held (pieces_of size room) (release size room) ≡ some []
held-release size room = ground arith

pub held-replace :
    (size room new_room : ℕ)
    → new_room ≢ 0
    → held (pieces_of size room) (kalloc (size * new_room) ∷ release size room)
      ≡ some (pieces_of size new_room)
held-replace size room new_room n = ground arith

pub fits_below : (size n most : ℕ) → n ≤ most → size * most < 2 ^ 64 → size * n < 2 ^ 64
fits_below size n most le lt = omega (arith, mul-le-mul_left size le, lt)

one_below : (size : ℕ) → 1 ≤ suc size
one_below size = omega arith

pub counts : (size n : ℕ) → 0 < size → size * n < 2 ^ 64 → n < 2 ^ 64
counts (suc size) n pos lt = omega (arith, mul-le-mul_right n (one_below size), lt)
counts zero n pos lt = absurd (omega arith)
