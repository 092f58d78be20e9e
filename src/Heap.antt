-- ===== src/Heap.antt =====
-- The physical page heap of attos/mem.h and attos/mem.cpp (`simple_heap`).
pub mod Order
pub mod Update
pub mod Clients
pub mod History
pub mod Default
mod Tests
use attos.Common.{
  ℕ, ◌+◌, ◌-◌, ◌*◌, ◌/◌, ◌%◌, ◌^◌, List, [], ◌∷◌, Option, none, some, Bool, false, ◌&&◌, ltb, leb,
  ◌==◌, if◌then◌else◌, ◌>>=◌, ◌>>◌, require, u64,
}

-- `free_node`: its address is where it lies, its `next` is the rest of the list.
pub record FreeNode : Type 0 where
  pub addr : ℕ
  pub size : ℕ

-- `sizeof(free_node)`
abbrev pub node_size : ℕ
node_size = 16

-- `free_` is the list in link order, and `end_of_list` is its end.
pub record SimpleHeap : Type 0 where
  pub base : ℕ
  pub end_addr : ℕ
  pub free_list : List FreeNode

-- `coalesce_from(f)`, where the list is what `f->next` leads to.
unfoldable pub coalesce_from : FreeNode → List FreeNode → List FreeNode
coalesce_from f [] = f ∷ []
coalesce_from f (n ∷ rest) =
    let merged = coalesce_from (record { addr = f.addr; size = u64 (f.size + n.size) }) rest in
    if u64 (f.addr + f.size) == n.addr then merged else f ∷ n ∷ rest

-- The search for the node before the insertion point, from `prev` on, and the insertion there.
unfoldable pub insert_after : FreeNode → List FreeNode → FreeNode → List FreeNode
unfolding coalesce_from
insert_after prev [] new_free = coalesce_from prev (new_free ∷ [])
insert_after prev (n ∷ rest) new_free =
    if ltb n.addr new_free.addr
    then prev ∷ insert_after n rest new_free
    else coalesce_from prev (new_free ∷ n ∷ rest)

unfoldable pub insert_free : List FreeNode → FreeNode → List FreeNode
unfolding coalesce_from insert_after
insert_free [] new_free = coalesce_from new_free []
insert_free (head ∷ rest) new_free =
    if ltb new_free.addr head.addr
    then coalesce_from new_free (head ∷ rest)
    else insert_after head rest new_free

-- The first node that is large enough. `*fp + size / sizeof(free_node)` is pointer arithmetic.
unfoldable pub alloc_from : ℕ → List FreeNode → Option (ℕ × List FreeNode)
alloc_from size [] = none
alloc_from size (n ∷ rest) =
    let later = alloc_from size rest >>= (λ r. some (r.0, n ∷ r.1)) in
    let next_free = u64 (n.addr + size / node_size * node_size) in
    let free_size = n.size - size in
    if ltb n.size size
    then later
    else if free_size == 0
    then some (n.addr, rest)
    else some (n.addr, record { addr = next_free; size = free_size } ∷ rest)

-- The constructor: `length >= sizeof(free_node)` and a multiple of it.
unfoldable pub init : ℕ → ℕ → Option SimpleHeap
unfolding insert_free
init base len = do
  require (leb node_size len)
  require (len % node_size == 0)
  some (record {
    base = base;
    end_addr = u64 (base + len);
    free_list = insert_free [] (record { addr = base; size = len });
  })

unfoldable pub alloc : SimpleHeap → ℕ → Option (ℕ × SimpleHeap)
unfolding alloc_from
alloc h size = do (p, rest) ← alloc_from size h.free_list; some (p, record h { free_list = rest })

unfoldable pub free : SimpleHeap → ℕ → ℕ → Option SimpleHeap
unfolding insert_free
free h ptr size = do
  require (leb h.base ptr && leb (u64 (ptr + size)) h.end_addr)
  some (record h { free_list = insert_free h.free_list (record { addr = ptr; size = size }) })

-- The destructor's check: everything has been freed, and the list is the one initial node.
unfoldable pub is_whole : SimpleHeap → List FreeNode → Bool
is_whole h [] = false
is_whole h (n ∷ rest) = n.addr == h.base && n.size == u64 (h.end_addr + 2 ^ 64 - h.base)

unfoldable pub destroy : SimpleHeap → Option (Unit {0})
unfolding is_whole
destroy h = require (is_whole h h.free_list)
