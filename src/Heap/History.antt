-- ===== src/Heap/History.antt =====
-- The life of a `simple_heap` under its callers, from its first allocation to its destructor.
use attos.Common.{
  ℕ, ◌+◌, ◌-◌, ◌*◌, ◌/◌, ◌%◌, ◌^◌, ◌≤◌, ◌<◌, ◌≡◌, ◌≢◌, refl, List, [], ◌∷◌, ◌++◌, none, some, arith,
  u64, ◌↔◌,
}
use attos.Heap.{FreeNode, SimpleHeap, init, alloc, free, destroy, insert_free, alloc_from}
use attos.Heap.Update.{AllSmaller, alloc_from-none}
use attos.Heap.Clients.{Client, Reach, IsShared, init-Inv, Reach-Inv, free_live, destroy_of_Inv}

-- A heap that `init` has made on aligned memory, below the end of the address space.
abbrev pub IsNew : ℕ → ℕ → SimpleHeap → Type 0
IsNew base len h = (base % 16 ≡ 0) × (base + len < 2 ^ 64) × (init base len ≡ some h)

-- After any history of allocations in whole nodes and of frees of live blocks, each byte of the heap
-- is in exactly one free node or in exactly one live block: no two live blocks overlap, none of
-- their bytes is free, and no byte is lost.
pub history-IsShared :
    (base len : ℕ) (h : SimpleHeap) (c : Client)
    → IsNew base len h
    → Reach (record { heap = h; live = [] }) c
    → IsShared base (base + len) c.heap.free_list c.live
history-IsShared base len h c (al, fits, made) r =
    (Reach-Inv base (base + len) fits (init-Inv base len h al fits made) r).shared

-- In any such history a live block can be freed: the range check of `free` passes.
pub history-free :
    (base len : ℕ) (h : SimpleHeap) (c : Client) (before after : List FreeNode) (b : FreeNode)
    → IsNew base len h
    → Reach (record { heap = h; live = [] }) c
    → c.live ≡ before ++ b ∷ after
    → free c.heap b.addr b.size
      ≡ some (record c.heap { free_list = insert_free c.heap.free_list b })
history-free base len h c before after b (al, fits, made) r e =
    free_live base (base + len) fits c before after b
      (Reach-Inv base (base + len) fits (init-Inv base len h al fits made) r) e

init_pos : (base len : ℕ) (h : SimpleHeap) → init base len ≡ some h → 16 ≤ len
unfolding init
init_pos base len h e = ground arith

-- When such a history ends with no live block, the destructor's check passes: the free list is one
-- node that covers the heap, in whatever order the blocks were freed.
pub history-destroy :
    (base len : ℕ) (h : SimpleHeap) (c : Client)
    → IsNew base len h
    → Reach (record { heap = h; live = [] }) c
    → c.live ≡ []
    → destroy c.heap ≡ some tt
history-destroy base len h c (al, fits, made) r e =
    destroy_of_Inv base (base + len) fits c (omega (arith, init_pos base len h made))
      (Reach-Inv base (base + len) fits (init-Inv base len h al fits made) r) e

-- `alloc` stops the kernel exactly when no single free node is large enough.
pub alloc-none : (h : SimpleHeap) (size : ℕ) → alloc h size ≡ none ↔ AllSmaller size h.free_list
unfolding alloc
alloc-none h size = (
  λ e. (alloc_from-none size h.free_list).0 (ground arith),
  λ s. rw ((alloc_from-none size h.free_list).1 s) refl,
)

-- A block freed between two nodes, not touching the first, is not joined to the second, even where
-- it touches it: a request for the two together then fails if no other node serves it.
pub free_leaves_touching :
    (h : SimpleHeap) (prev next : FreeNode) (rest : List FreeNode) (b : FreeNode) (size : ℕ)
    → h.free_list ≡ prev ∷ next ∷ rest
    → prev.addr + prev.size < b.addr
    → b.addr + b.size ≡ next.addr
    → 0 < b.size
    → h.base ≤ b.addr
    → b.addr + b.size ≤ h.end_addr
    → h.end_addr < 2 ^ 64
    → AllSmaller size (prev ∷ next ∷ rest)
    → b.size < size
    → (h' : SimpleHeap) × (free h b.addr b.size ≡ some h')
      × (h'.free_list ≡ prev ∷ b ∷ next ∷ rest)
      × (alloc h' size ≡ none)
unfolding free insert_free
free_leaves_touching h prev next rest b size e gap touch pos lo hi fits small bs =
    let kept : insert_free (prev ∷ next ∷ rest) b ≡ prev ∷ b ∷ next ∷ rest = ground arith in
    let h' : SimpleHeap = record h { free_list = prev ∷ b ∷ next ∷ rest } in
    (h', ground arith, refl, (alloc-none h' size).1 (small.0, (bs, small.1)))

-- A request that is no multiple of 16 and does not use up its node leaves a free node that begins
-- inside the block that it hands out.
pub alloc_misaligned_overlaps :
    (h : SimpleHeap) (size : ℕ) (n : FreeNode) (rest : List FreeNode)
    → h.free_list ≡ n ∷ rest
    → size < n.size
    → size % 16 ≢ 0
    → n.addr + size < 2 ^ 64
    → (left : FreeNode) × (alloc h size ≡ some (n.addr, record h { free_list = left ∷ rest }))
      × (n.addr ≤ left.addr)
      × (left.addr < n.addr + size)
unfolding alloc alloc_from
alloc_misaligned_overlaps h size n rest e small odd fits = (
  record { addr = u64 (n.addr + size / 16 * 16); size = n.size - size },
  ground arith,
  omega arith,
  omega arith,
)
