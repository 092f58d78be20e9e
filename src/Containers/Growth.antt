-- ===== src/Containers/Growth.antt =====
-- `kvector` of attos/containers.h over a history of its operations, as a list and as a client of the heap.
use attos.Common.{
  ℕ, suc, ◌+◌, ◌-◌, ◌≤◌, ◌≡◌, refl, ap, ◌∙◌, List, [], ◌∷◌, ◌++◌, ◌==◌, ◌!=◌, ltb, leb,
  if◌then◌else◌, Option, none, some, ◌>>=◌, ◌*◌, ◌^◌, ◌<◌, max, u64, length, take, drop, replicate,
  arith, length-append, length-take, length-replicate, inl, inr, Bool-cases, take_all, subst,
}
use mathlib.Core.List.{append-nil}
use native.Mathlib.Nat.{mul-div_cancel_left}
use attos.Containers.KVector.{
  KVector, HeapCall, kalloc, new, release, clear, reserve, ensure_room, push_back, resize,
  erase_from, erase, pop_back, insert, assign,
}
use attos.Containers.History.{
  Op, pushes, resizes, reserves, erases, pops, clears, inserts, assigns, run_op, list_op, request,
  Countable, History, begin, then_op, held, held-append, pieces_of, held-release, held-replace,
  fits_below, counts,
}
use attos.Containers.Erasing.{erase_from_lem, drop_all}

module _ {ℓ} {A : Type ℓ} (size : ℕ) (pos : 0 < size) where
  -- What an operation must do for the elements to be as a list operation says, in the room there is, with the
  -- memory accounted for.
  abbrev Fits : KVector A → List A → KVector A → List HeapCall → Type ℓ
  Fits v xs v' calls =
      (v'.elems ≡ xs)
      × (length v'.elems ≤ v'.room)
      × (held (pieces_of size v.room) calls ≡ some (pieces_of size v'.room))

  -- `reserve` without the wrap-around.
  grow_to : KVector A → ℕ → KVector A × List HeapCall
  grow_to v n = (record v { room = n }, kalloc (size * n) ∷ release size v.room)

  reserve_lem :
      (v : KVector A) (n : ℕ)
      → size * n < 2 ^ 64
      → reserve size v n ≡ (if leb n v.room then (v, []) else grow_to v n)
  unfolding reserve grow_to
  reserve_lem v n fits =
      let same : u64 (size * n) ≡ size * n = omega (arith, fits) in
      rw (same, mul-div_cancel_left n pos) refl

  reserve-Fits :
      (v : KVector A) (n : ℕ)
      → length v.elems ≤ v.room
      → size * n < 2 ^ 64
      → Fits v v.elems (reserve size v n).0 (reserve size v n).1 × (n ≤ (reserve size v n).0.room)
  unfolding grow_to
  reserve-Fits v n h fits =
      let is = reserve_lem v n fits in
      elim (Bool-cases (leb n v.room)) [
        | inl enough ↦ rw (is, enough) ((refl, h, refl), ground arith)
        | inr short ↦
            rw (is, short)
              ((refl, ground arith, held-replace size v.room n (ground arith)), omega arith)
      ]

  ensure_room_lem :
      (v : KVector A) (n : ℕ)
      → length v.elems ≤ v.room
      → Countable size n v
      → Fits v v.elems (ensure_room size v n).0 (ensure_room size v n).1
        × (n ≤ (ensure_room size v n).0.room)
  unfolding ensure_room reserve
  ensure_room_lem v n h fits =
      let most : ℕ = max n (max 10 (2 * v.room)) in
      let small : most < 2 ^ 64 = counts size most pos fits in
      let twice : u64 (2 * v.room) ≡ 2 * v.room = omega (arith, small) in
      let asked : ℕ = max n (if v.room != 0 then 2 * v.room else 10) in
      let below : asked ≤ most = ground arith in
      let grown = reserve-Fits v asked h (fits_below size asked most below fits) in
      elim (Bool-cases (ltb v.room n)) [
        | inl short ↦ rw (short, twice) (grown.0, ground (arith, grown.1))
        | inr enough ↦ rw enough ((refl, h, refl), ground arith)
      ]

  erase-Fits :
      (v v' : KVector A) (i : ℕ) (calls : List HeapCall) (r : Option (List A))
      → length v.elems ≤ v.room
      → erase_from v.elems i ≡ r
      → (◌>>=◌ {B = KVector A × List HeapCall} r λ l. some (record v { elems = l }, []))
        ≡ some (v', calls)
      → Fits v (take i v.elems ++ drop (suc i) v.elems) v' calls
  erase-Fits v v' i calls none h s e = absurd cc
  erase-Fits v v' i calls (some l) h s e = ground (arith, erase_from_lem v.elems l i s)

  resize-Fits :
      (default : A) (v v' : KVector A) (n : ℕ) (calls : List HeapCall)
      → length v.elems ≤ v.room
      → Countable size n v
      → resize size default v n ≡ (v', calls)
      → Fits v (take n v.elems ++ replicate (n - length v.elems) default) v' calls
  unfolding resize
  resize-Fits default v v' n calls h fits e = elim (Bool-cases (leb n (length v.elems))) [
    | inl small ↦
        let none_more : n - length v.elems ≡ 0 = ground arith in
        let got : (record v { elems = take n v.elems }, []) ≡ (v', calls) = rw small at e in
        rw (none_more, append-nil (take n v.elems)) (ground (arith, got, length-take n v.elems))
    | inr large ↦
        let all : take n v.elems ≡ v.elems = take_all n v.elems (ground arith) in
        rw all (
          ground (
            arith,
            large,
            e,
            ensure_room_lem v n h fits,
            length-append v.elems (replicate (n - length v.elems) default),
            length-replicate (n - length v.elems) default,
          ))
  ]

  pop_back-Fits :
      (v v' : KVector A) (calls : List HeapCall)
      → length v.elems ≤ v.room
      → pop_back v ≡ some (v', calls)
      → Fits v (take (length v.elems - 1) v.elems) v' calls
  unfolding pop_back erase
  pop_back-Fits v v' calls h e = elim (Bool-cases (length v.elems == 0)) [
    | inl e0 ↦ absurd (ground arith)
    | inr some_in ↦
        let none_behind : drop (suc (length v.elems - 1)) v.elems ≡ [] =
          drop_all (suc (length v.elems - 1)) v.elems (omega arith) in
        let cut : take (length v.elems - 1) v.elems ++ drop (suc (length v.elems - 1)) v.elems
            ≡ take (length v.elems - 1) v.elems =
          ap (λ l. take (length v.elems - 1) v.elems ++ l) none_behind
          ∙ append-nil (take (length v.elems - 1) v.elems) in
        subst (λ l. Fits v l v' calls) cut
          (erase-Fits v v' (length v.elems - 1) calls (erase_from v.elems (length v.elems - 1)) h
            refl (rw some_in at e))
  ]

  sum_fits : (v : KVector A) (n : ℕ) → Countable size n v → u64 n ≡ n
  sum_fits v n fits =
      let most : ℕ = max n (max 10 (2 * v.room)) in omega (arith, counts size most pos fits)

  push_back-Fits :
      (v : KVector A) (x : A)
      → length v.elems ≤ v.room
      → Countable size (length v.elems + 1) v
      → Fits v (v.elems ++ x ∷ []) (push_back size v x).0 (push_back size v x).1
  unfolding push_back
  push_back-Fits v x h fits =
      let n : ℕ = length v.elems + 1 in
      rw (sum_fits v n fits)
        (ground (arith, ensure_room_lem v n h fits, length-append v.elems (x ∷ [])))

  insert-Fits :
      (v : KVector A) (xs : List A)
      → length v.elems ≤ v.room
      → Countable size (length v.elems + length xs) v
      → Fits v (v.elems ++ xs) (insert size v xs).0 (insert size v xs).1
  unfolding insert
  insert-Fits v xs h fits =
      let n : ℕ = length v.elems + length xs in
      rw (sum_fits v n fits) (ground (arith, ensure_room_lem v n h fits, length-append v.elems xs))

  assign-Fits :
      (v : KVector A) (xs : List A)
      → length v.elems ≤ v.room
      → Countable size (length xs) v
      → Fits v xs (assign size v xs).0 (assign size v xs).1
  unfolding assign clear
  assign-Fits v xs h fits =
      let fresh : KVector A = new in
      let most : ℕ = max (length xs) (max 10 (2 * v.room)) in
      let alone : ℕ = max (0 + length xs) (max 10 (2 * 0)) in
      let below : alone ≤ most = omega arith in
      let copied = insert-Fits fresh xs (omega arith) (fits_below size alone most below fits) in
      (
        copied.0,
        copied.1,
        ap (held (pieces_of size v.room))
              (append-nil (release size v.room ++ (insert size fresh xs).1))
            ∙ held-append (release size v.room) (insert size fresh xs).1 (pieces_of size v.room) []
                (held-release size v.room)
            ∙ copied.2,
      )

  op-Fits :
      (default : A) (op : Op A) (v v' : KVector A) (calls : List HeapCall)
      → length v.elems ≤ v.room
      → Countable size (request op v) v
      → run_op size default op v ≡ some (v', calls)
      → Fits v (list_op default op v.elems) v' calls
  unfolding erase clear
  op-Fits default (pushes x) v v' calls h fits e = ground (arith, push_back-Fits v x h fits)
  op-Fits default (resizes n) v v' calls h fits e =
      resize-Fits default v v' n calls h fits (ground arith)
  op-Fits default (reserves n) v v' calls h fits e =
      let most : ℕ = max n (max 10 (2 * v.room)) in
      ground (arith, reserve-Fits v n h (fits_below size n most (omega arith) fits))
  op-Fits default (erases i) v v' calls h fits e =
      erase-Fits v v' i calls (erase_from v.elems i) h refl e
  op-Fits default pops v v' calls h fits e = pop_back-Fits v v' calls h e
  op-Fits default clears v v' calls h fits e = ground (arith, held-release size v.room)
  op-Fits default (inserts xs) v v' calls h fits e = ground (arith, insert-Fits v xs h fits)
  op-Fits default (assigns xs) v v' calls h fits e = ground (arith, assign-Fits v xs h fits)

  History-Fits :
      (default : A) (xs : List A) (v : KVector A) (calls : List HeapCall)
      → History size default xs v calls
      → (v.elems ≡ xs) × (length v.elems ≤ v.room) × (held [] calls ≡ some (pieces_of size v.room))
  History-Fits default xs v calls begin = (refl, omega arith, refl)
  History-Fits default xs v calls
        (then_op {xs = ys} {v = w} {before = before} {calls = last} op past countable e) =
      let ih = History-Fits default ys w before past in
      let fits = op-Fits default op w v last ih.1 countable e in
      (
        fits.0 ∙ ap (list_op default op) ih.0,
        fits.1,
        held-append before last [] (pieces_of size w.room) ih.2 ∙ fits.2,
      )

-- After any history of operations in which the bytes of the room asked for can be counted in 64 bits, a vector of
-- elements of at least one byte holds what the same operations make of a list, within its room. It has given
-- back all memory that it took but one piece, of just the bytes of its room; once it is cleared it holds none.
pub History-held {ℓ} :
    {A : Type ℓ} (size : ℕ) (default : A) (xs : List A) (v : KVector A) (calls : List HeapCall)
    → 0 < size
    → History size default xs v calls
    → (v.elems ≡ xs)
      × (length xs ≤ v.room)
      × (held [] calls ≡ some (pieces_of size v.room))
      × (held [] (calls ++ (clear size v).1) ≡ some [])
unfolding clear
History-held size default xs v calls pos past =
    let fits = History-Fits size pos default xs v calls past in
    (
      fits.0,
      subst (λ l. length l ≤ v.room) fits.0 fits.1,
      fits.2,
      held-append calls (release size v.room) [] (pieces_of size v.room) fits.2
          ∙ held-release size v.room,
    )
