-- ===== src/Heap/Tests.antt =====
-- `simple_heap` on a heap of 64 bytes at address 4096.
use attos.Common.{ℕ, ◌≡◌, refl, List, [], ◌∷◌, none, some, arith}
use attos.Heap.{FreeNode, SimpleHeap, init, alloc, free, destroy, insert_free}
use attos.Heap.Clients.{Client, Reach, here, next, allocs, frees, IsShared}
use attos.Heap.History.{
  IsNew, history-IsShared, history-free, history-destroy, free_leaves_touching,
}

abbrev node : ℕ → ℕ → FreeNode
node a s = record { addr = a; size = s }

abbrev heap_of : List FreeNode → SimpleHeap
heap_of l = record { base = 4096; end_addr = 4160; free_list = l }

abbrev fresh : SimpleHeap
fresh = heap_of (node 4096 64 ∷ [])

fresh-IsNew : IsNew 4096 64 fresh
unfolding init
fresh-IsNew = (refl, omega arith, refl)

-- three blocks of 16 bytes, the middle one freed first
abbrev three : Client
three = record {
  heap = heap_of (node 4144 16 ∷ []);
  live = node 4128 16 ∷ node 4112 16 ∷ node 4096 16 ∷ [];
}

three-Reach : Reach (record { heap = fresh; live = [] }) three
unfolding alloc
three-Reach =
    next
      (next (next here (allocs 16 4096 (heap_of (node 4112 48 ∷ [])) (omega arith) refl refl))
        (allocs 16 4112 (heap_of (node 4128 32 ∷ [])) (omega arith) refl refl))
      (allocs 16 4128 (heap_of (node 4144 16 ∷ [])) (omega arith) refl refl)

abbrev two_left : Client
two_left = record {
  heap = heap_of (node 4112 16 ∷ node 4144 16 ∷ []);
  live = node 4128 16 ∷ node 4096 16 ∷ [];
}

two_left-Reach : Reach (record { heap = fresh; live = [] }) two_left
unfolding free
two_left-Reach =
    next three-Reach
      (frees (node 4128 16 ∷ []) (node 4096 16 ∷ []) (node 4112 16) two_left.heap refl refl)

all_freed-Reach : Reach (record { heap = fresh; live = [] }) (record { heap = fresh; live = [] })
unfolding free
all_freed-Reach =
    next
      (next two_left-Reach
        (frees [] (node 4096 16 ∷ []) (node 4128 16) (heap_of (node 4112 48 ∷ [])) refl refl))
      (frees [] [] (node 4096 16) fresh refl refl)

history-IsShared_example : IsShared 4096 4160 two_left.heap.free_list two_left.live
history-IsShared_example = history-IsShared 4096 64 fresh two_left fresh-IsNew two_left-Reach

history-free_example :
    free two_left.heap 4128 16 ≡ some (heap_of (insert_free two_left.heap.free_list (node 4128 16)))
history-free_example =
    history-free 4096 64 fresh two_left [] (node 4096 16 ∷ []) (node 4128 16) fresh-IsNew
      two_left-Reach refl

history-destroy_example : destroy fresh ≡ some tt
history-destroy_example =
    history-destroy 4096 64 fresh (record { heap = fresh; live = [] }) fresh-IsNew all_freed-Reach
      refl

-- nodes at 4096 and 4144; the block between 4128 and 4144 is freed
free_leaves_touching_example :
    (h' : SimpleHeap) × (free (heap_of (node 4096 16 ∷ node 4144 16 ∷ [])) 4128 16 ≡ some h')
    × (h'.free_list ≡ node 4096 16 ∷ node 4128 16 ∷ node 4144 16 ∷ [])
    × (alloc h' 32 ≡ none)
free_leaves_touching_example =
    free_leaves_touching (heap_of (node 4096 16 ∷ node 4144 16 ∷ [])) (node 4096 16) (node 4144 16)
      [] (node 4128 16) 32 refl (omega arith) refl (omega arith) (omega arith) (omega arith)
      (omega arith) (omega arith) (omega arith)
