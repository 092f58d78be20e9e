-- ===== src/Paging/Manager.antt =====
-- `memory_manager_base` of kernel/mm.cpp: the mappings, and `do_map_memory` and `do_unmap_memory` as a whole.
-- The tree of mappings, which is ordered by address, is the list that its iterators run through.
use attos.Common.{
  ℕ, ◌+◌, ◌-◌, ◌/◌, ◌%◌, ◌^◌, ◌==◌, ◌&&◌, ◌||◌, not, leb, ltb, if◌then◌else◌, Option, none, some,
  ◌>>=◌, ◌>>◌, require, List, [], ◌∷◌, u64, round_up, is_none,
}
use attos.Paging.Address.{page_size, pml4e, memory_type_page_size, memory_areas_overlap, is_read}
use attos.Paging.Tables.{Memory, PageSource, map_pages, unmap_pages}

-- `memory_mapping`
pub record Mapping : Type 0 where
  pub address : ℕ
  pub length : ℕ
  pub type : ℕ

-- `sizeof(memory_mapping)`: three words of its own, and the links of the tree.
abbrev pub mapping_size : ℕ
mapping_size = 48

pub record Manager (S : Type 0) : Type 0 where
  pub memory : Memory S
  pub pml4 : ℕ
  pub mappings : List Mapping
  pub used_bytes : ℕ
  pub free_virt_base : ℕ

-- `no_free_heap::alloc`, from the bytes in use to those after it, in a heap of `length` bytes.
unfoldable pub no_free_alloc : ℕ → ℕ → ℕ → ℕ → Option ℕ
no_free_alloc alignment length cur size =
    require (leb (cur + round_up size alignment) length) >> some (cur + round_up size alignment)

unfoldable pub find_mapping : List Mapping → ℕ → ℕ → Option Mapping
find_mapping [] addr len = none
find_mapping (m ∷ l) addr len =
    let rest = find_mapping l addr len in
    if memory_areas_overlap addr len m.address m.length then some m else rest

-- `memory_map_tree_.insert`
unfoldable pub insert_mapping : Mapping → List Mapping → List Mapping
insert_mapping n [] = n ∷ []
insert_mapping n (m ∷ l) =
    let rest = insert_mapping n l in if ltb n.address m.address then n ∷ m ∷ l else m ∷ rest

-- `memory_map_tree_.remove`: no two mappings have one address.
unfoldable pub remove_mapping : Mapping → List Mapping → List Mapping
remove_mapping n [] = []
remove_mapping n (m ∷ l) =
    let rest = remove_mapping n l in if n.address == m.address then l else m ∷ rest

abbrev pub map_alloc_virt : ℕ
map_alloc_virt = 2 ^ 64 - 1

abbrev pub map_alloc_virt_close_to_kernel : ℕ
map_alloc_virt_close_to_kernel = 2 ^ 64 - 2

module _ {S : Type 0} (source : PageSource S) where
  unfoldable pub virtual_alloc : Manager S → ℕ → Option (ℕ × Manager S)
  virtual_alloc mm length = do
    require (length % page_size == 0)
    require (leb mm.free_virt_base (u64 (mm.free_virt_base + length)))
    some (mm.free_virt_base, record mm { free_virt_base = u64 (mm.free_virt_base + length) })

  -- The address that is asked for, or one that is free.
  unfoldable pub choose_virt : Manager S → ℕ → ℕ → Option (ℕ × Manager S)
  choose_virt mm virt length =
      let fresh = virtual_alloc mm length in
      if virt == map_alloc_virt
      then fresh
      else if virt == map_alloc_virt_close_to_kernel
      then fresh
      else some (virt, mm)

  -- `do_map_memory` once the address is known.
  unfoldable pub map_at : Manager S → ℕ → ℕ → ℕ → ℕ → Option (ℕ × Manager S)
  map_at mm virt length type phys = do
    require (virt % memory_type_page_size type == 0)
    require (ltb virt (u64 (virt + length)))
    require (is_none (find_mapping mm.mappings virt length))
    require (is_read type)
    require (not (length == 0))
    used_bytes' ← no_free_alloc 8 page_size mm.used_bytes mapping_size
    memory' ←
        map_pages source mm.pml4 type (length / memory_type_page_size type) mm.memory virt phys
    some (
      virt,
      record mm {
        memory = memory';
        mappings =
            insert_mapping (record { address = virt; length = length; type = type }) mm.mappings;
        used_bytes = used_bytes';
      },
    )

  unfoldable pub do_map_memory : Manager S → ℕ → ℕ → ℕ → ℕ → Option (ℕ × Manager S)
  do_map_memory mm virt length type phys = do
    require (ltb 0 length)
    require (length % memory_type_page_size type == 0)
    require (phys % memory_type_page_size type == 0)
    require (ltb phys (2 ^ 32))
    (chosen, mm') ← choose_virt mm virt length
    map_at mm' chosen length type phys

unfoldable pub do_unmap_memory : {S : Type 0} → Manager S → ℕ → ℕ → Option (Manager S)
do_unmap_memory mm virt length = do
  m ← find_mapping mm.mappings virt length
  require (m.length == length)
  words' ← unmap_pages mm.pml4 m.type (length / memory_type_page_size m.type) mm.memory.words virt
  some (record mm {
    memory = record { pages = mm.memory.pages; words = words' };
    mappings = remove_mapping m (remove_mapping m mm.mappings);
  })

module _ {S : Type 0} (source : PageSource S) where
  -- `kernel_memory_manager::do_map_memory`, with `kernel_pml4`
  unfoldable pub kernel_map_memory : Manager S → ℕ → ℕ → ℕ → ℕ → Option (ℕ × Manager S)
  kernel_map_memory mm virt length type phys =
      require (pml4e virt == 0x1ff) >> do_map_memory source mm virt length type phys

  -- `default_memory_manager::do_map_memory`
  unfoldable pub default_map_memory : Manager S → ℕ → ℕ → ℕ → ℕ → Option (ℕ × Manager S)
  default_map_memory mm virt length type phys =
      let user_half = not (pml4e virt == 0x1ff) && ltb (pml4e virt) 0x100 in
      require ((virt == map_alloc_virt) || user_half)
      >> do_map_memory source mm virt length type phys

  -- `iomem_map`: read, write and no cache.
  unfoldable pub iomem_map : Manager S → ℕ → ℕ → Option (ℕ × Manager S)
  iomem_map mm base length =
      require (base % page_size == 0)
      >> kernel_map_memory mm map_alloc_virt length (1 + 2 + 16) base
