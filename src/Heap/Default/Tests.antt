-- ===== src/Heap/Default/Tests.antt =====
-- `default_heap` on a heap of 64 bytes at address 4096.
use attos.Common.{ℕ, ◌+◌, ◌≤◌, ◌%◌, ◌≡◌, refl, [], ◌∷◌, some, arith, ltb, if◌then◌else◌}
use attos.Heap
use attos.Heap.{FreeNode, SimpleHeap}
use attos.Heap.Default.{DefaultHeap, total_size, alloc, free, free-alloc}

abbrev heap_of : ℕ → ℕ → SimpleHeap
heap_of addr size = record {
  base = 4096;
  end_addr = 4160;
  free_list = record { addr = addr; size = size } ∷ [];
}

abbrev fresh : DefaultHeap
fresh = record { heap = heap_of 4096 64; words = λ a. 0 }

free-alloc_example :
    (d' d'' : DefaultHeap) × (10 + 16 ≤ total_size 10)
    × (total_size 10 % 16 ≡ 0)
    × (alloc fresh 10 ≡ some (4096 + 16, d'))
    × (free (record d' { words = λ a. if ltb a (4096 + 16) then d'.words a else 7 }) (4096 + 16)
        ≡ some d'')
    × (d''.heap ≡ heap_of 4096 64)
free-alloc_example =
    free-alloc fresh 10 4096 (heap_of 4128 32) (heap_of 4096 64) (λ a. 7) (omega arith)
      (omega arith) (unfold Heap.alloc in refl) (unfold Heap.free in refl)
