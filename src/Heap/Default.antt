-- ===== src/Heap/Default.antt =====
-- `default_heap` of attos/mem.h and attos/mem.cpp: the header before each block, over `simple_heap`.
mod Tests
use attos.Common.{
  ℕ, ◌+◌, ◌-◌, ◌*◌, ◌/◌, ◌%◌, ◌^◌, ◌≤◌, ◌<◌, ◌≡◌, refl, ap, ◌∙◌, Option, some, none, ◌==◌, ltb,
  if◌then◌else◌, ◌>>=◌, ◌>>◌, require, u64, round_up, round_up_lem, arith, eq→==,
}
use attos.Heap
use attos.Heap.{SimpleHeap}

abbrev pub align : ℕ
align = 16

-- `words` are the 64-bit words of the memory by address, as far as they belong to blocks in use; the nodes of
-- free memory are in `heap`.
pub record DefaultHeap : Type 0 where
  pub heap : SimpleHeap
  pub words : ℕ → ℕ

abbrev pub store : (ℕ → ℕ) → ℕ → ℕ → ℕ → ℕ
store words at value a = if a == at then value else words a

-- The size of a block with its header: the sum wraps.
abbrev pub total_size : ℕ → ℕ
total_size size = u64 (round_up (u64 (size + align)) align)

unfoldable pub alloc : DefaultHeap → ℕ → Option (ℕ × DefaultHeap)
alloc d size = do
  (ptr, heap) ← Heap.alloc d.heap (total_size size)
  some (
    u64 (ptr + align),
    record { heap = heap; words = store (store d.words ptr (total_size size)) (u64 (ptr + 8)) ptr },
  )

unfoldable pub free : DefaultHeap → ℕ → Option DefaultHeap
free d ptr = do
  let p = u64 (2 ^ 64 + ptr - align)
  require (d.words (u64 (p + 8)) == p)
  heap ← Heap.free d.heap p (d.words p)
  some (record { heap = heap; words = store d.words (u64 (p + 8)) 0 })

total_size_lem :
    (size : ℕ) → size + 32 < 2 ^ 64 → (size + 16 ≤ total_size size) × (total_size size % 16 ≡ 0)
total_size_lem size fits =
    let inner : u64 (size + 16) ≡ size + 16 = omega arith in
    let up = round_up_lem (size + 16) (omega arith) in
    rw inner (omega (arith, up.0, up.1), omega (arith, up.0, up.1, up.2))

-- The header as `free` finds it.
header_found :
    (words written : ℕ → ℕ) (ptr total : ℕ)
    → ptr + 16 < 2 ^ 64
    → let found : ℕ → ℕ = λ a.
      if ltb a (ptr + 16) then store (store words ptr total) (ptr + 8) ptr a else written a in
      (found (ptr + 8) ≡ ptr) × (found ptr ≡ total)
header_found words written ptr total below = (ground arith, ground arith)

-- A request that is not within 32 bytes of 2^64, where the heap below has a block for it at `ptr` and takes the
-- block back: `alloc` hands out the part behind the header, with room for all that was asked for; whatever is
-- written from there on, `free` finds the header, and gives back to the heap below exactly what was taken.
pub free-alloc :
    (d : DefaultHeap) (size ptr : ℕ) (heap heap' : SimpleHeap) (written : ℕ → ℕ)
    → size + 32 < 2 ^ 64
    → ptr + 16 < 2 ^ 64
    → Heap.alloc d.heap (total_size size) ≡ some (ptr, heap)
    → Heap.free heap ptr (total_size size) ≡ some heap'
    → (d' d'' : DefaultHeap) × (size + 16 ≤ total_size size)
      × (total_size size % 16 ≡ 0)
      × (alloc d size ≡ some (ptr + 16, d'))
      × (free
            (record d' { words = λ a. if ltb a (ptr + 16) then d'.words a else written a })
            (ptr + 16)
          ≡ some d'')
      × (d''.heap ≡ heap')
unfolding alloc free
free-alloc d size ptr heap heap' written fits below taken given =
    let total : ℕ = total_size size in
    let sized = total_size_lem size fits in
    let words : ℕ → ℕ = store (store d.words ptr total) (ptr + 8) ptr in
    let found : ℕ → ℕ = λ a. if ltb a (ptr + 16) then words a else written a in
    let header = header_found d.words written ptr total below in
    let behind : u64 (ptr + 16) ≡ ptr + 16 = omega arith in
    let cookie : u64 (ptr + 8) ≡ ptr + 8 = omega arith in
    let back : u64 (2 ^ 64 + (ptr + 16) - 16) ≡ ptr = omega arith in
    (
      record { heap = heap; words = words },
      record { heap = heap'; words = store found (ptr + 8) 0 },
      sized.0,
      sized.1,
      rw (taken, behind, cookie) refl,
      rw (back, cookie, header.0, header.1, eq→== ptr ptr refl, given) refl,
      refl,
    )
