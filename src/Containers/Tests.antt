-- ===== src/Containers/Tests.antt =====
-- A vector of numbers that grows, loses an element and is resized.
use attos.Common.{ℕ, arith, ◌≤◌, ◌≡◌, refl, List, [], ◌∷◌, ◌++◌, some, length}
use attos.Containers.KVector.{
  KVector, HeapCall, kalloc, kfree, clear, push_back, ensure_room, reserve, erase, erase_from,
  move_down, resize,
}
use attos.Containers.History.{
  pushes, resizes, reserves, erases, History, begin, then_op, held, pieces_of,
}
use attos.Containers.Growth.{History-held}

abbrev final : KVector ℕ
final = record { elems = 8 ∷ 0 ∷ []; room = 20 }

abbrev all_calls : List HeapCall
all_calls = kalloc 80 ∷ kalloc 160 ∷ kfree 80 ∷ []

final-History : History 8 0 (8 ∷ 0 ∷ []) final all_calls
unfolding push_back ensure_room reserve erase erase_from move_down resize
final-History =
    let grown =
      then_op (reserves 20)
        (then_op (pushes 8) (then_op (pushes 7) begin (omega arith) refl) (omega arith) refl)
        (omega arith) refl in
    then_op (resizes 2) (then_op (erases 0) grown (omega arith) refl) (omega arith) refl

History-held_example :
    (◌≡◌ {A = List ℕ} (8 ∷ 0 ∷ []) (8 ∷ 0 ∷ []))
    × (length {A = ℕ} (8 ∷ 0 ∷ []) ≤ 20)
    × (held [] all_calls ≡ some (pieces_of 8 20))
    × (held [] (all_calls ++ (clear 8 final).1) ≡ some [])
History-held_example = History-held 8 0 (8 ∷ 0 ∷ []) final all_calls (omega arith) final-History
