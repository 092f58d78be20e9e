-- ===== src/Containers/KVector.antt =====
-- `kvector` of attos/containers.h: its elements, its room, and what it asks of the kernel's heap.
use attos.Common.{
  ℕ, zero, suc, ◌+◌, ◌-◌, ◌*◌, ◌/◌, List, [], ◌∷◌, ◌++◌, ◌==◌, ◌!=◌, ltb, leb, if◌then◌else◌,
  Option, none, some, ◌>>=◌, length, take, replicate, max, u64,
}

-- `begin_` to `end_` are the elements, and `room` is `capacity()`: without memory it is 0.
pub record KVector {ℓ} (A : Type ℓ) : Type ℓ where
  pub elems : List A
  pub room : ℕ

-- The calls of `kalloc`, with the number of bytes, and of `kfree`, with the bytes of the piece at its pointer.
pub data HeapCall : Type 0 where
  kalloc kfree : ℕ → HeapCall

-- `kfree` is called unless `begin_` is null: it is where there is no room. `item_size` is `sizeof(T)`.
abbrev pub release : ℕ → ℕ → List HeapCall
release item_size room = if room == 0 then [] else kfree (item_size * room) ∷ []

module _ {ℓ} {A : Type ℓ} where
  abbrev pub new : KVector A
  new = record { elems = []; room = 0 }

  -- The loop of `erase`: each element behind the erased one moves down by one place.
  unfoldable pub move_down : A → List A → List A
  move_down erased [] = []
  move_down erased (x ∷ rest) = x ∷ move_down x rest

  unfoldable pub erase_from : List A → ℕ → Option (List A)
  unfolding move_down
  erase_from [] index = none
  erase_from (x ∷ rest) zero = some (move_down x rest)
  erase_from (x ∷ rest) (suc index) = erase_from rest index >>= (λ r. some (x ∷ r))

  -- `erase`, of the element at an index; `none` where there is none.
  unfoldable pub erase : KVector A → ℕ → Option (KVector A × List HeapCall)
  unfolding erase_from
  erase v index = erase_from v.elems index >>= (λ r. some (record v { elems = r }, []))

  unfoldable pub pop_back : KVector A → Option (KVector A × List HeapCall)
  unfolding erase
  pop_back v = if length v.elems == 0 then none else erase v (length v.elems - 1)

module _ {ℓ} {A : Type ℓ} (item_size : ℕ) where
  unfoldable pub clear : KVector A → KVector A × List HeapCall
  clear v = (new, release item_size v.room)

  -- The product is a `size_t`, and `capacity()` the difference of the pointers that come of it.
  unfoldable pub reserve : KVector A → ℕ → KVector A × List HeapCall
  reserve v new_capacity = if leb new_capacity v.room then (v, []) else (
    record v { room = u64 (item_size * new_capacity) / item_size },
    kalloc (u64 (item_size * new_capacity)) ∷ release item_size v.room,
  )

  unfoldable pub ensure_room : KVector A → ℕ → KVector A × List HeapCall
  unfolding reserve
  ensure_room v required_size =
      if ltb v.room required_size
      then reserve v (max required_size (if v.room != 0 then u64 (2 * v.room) else 10))
      else (v, [])

  unfoldable pub push_back : KVector A → A → KVector A × List HeapCall
  unfolding ensure_room
  push_back v elem =
      let (v', calls) = ensure_room v (u64 (length v.elems + 1)) in
      (record v' { elems = v'.elems ++ elem ∷ [] }, calls)

  -- The new elements are `T()`.
  unfoldable pub resize : A → KVector A → ℕ → KVector A × List HeapCall
  unfolding ensure_room
  resize default v new_size =
      let (v', calls) = ensure_room v new_size in
      if leb new_size (length v.elems)
      then (record v { elems = take new_size v.elems }, [])
      else (record v' { elems = v'.elems ++ replicate (new_size - length v.elems) default }, calls)

  -- `insert`, which takes no place but the end.
  unfoldable pub insert : KVector A → List A → KVector A × List HeapCall
  unfolding ensure_room
  insert v range =
      let (v', calls) = ensure_room v (u64 (length v.elems + length range)) in
      (record v' { elems = v'.elems ++ range }, calls)

  -- Copy assignment from another vector: a temporary takes the copy, and the two are swapped.
  unfoldable pub assign : KVector A → List A → KVector A × List HeapCall
  unfolding clear insert
  assign v other =
      let (cleared, calls) = clear v in
      let (copy, copying) = insert new other in
      (copy, calls ++ copying ++ release item_size cleared.room)
