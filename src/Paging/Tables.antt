-- ===== src/Paging/Tables.antt =====
-- The tables in physical memory: `alloc_if_not_present`, the loops of `do_map_memory` and
-- `do_unmap_memory`, and `virt_to_phys`. A pointer to a table is its physical address.
use attos.Common.{
  ℕ, zero, suc, ◌+◌, ◌*◌, ◌/◌, ◌%◌, ◌^◌, ◌==◌, ◌&&◌, leb, ltb, if◌then◌else◌, Option, some, ◌>>=◌,
  ◌>>◌, require,
}
use attos.Paging.Address.{
  page_size, pml4e, pdpe, pde, pte, is_1gb, is_2mb, memory_type_page_size, is_present, is_pagesize,
  table_flags, page_flags, check_bits,
}

-- The 64-bit words of physical memory, by address.
abbrev pub Words : Type 0
Words = ℕ → ℕ

abbrev pub store : Words → ℕ → ℕ → Words
store words at value a = if a == at then value else words a

-- What `alloc_physical` does to the words of a page.
abbrev pub zero_page : Words → ℕ → Words
zero_page words page a = if leb page a && ltb a (page + page_size) then 0 else words a

abbrev pub entry_at : ℕ → ℕ → ℕ
entry_at table index = table + index * 8

-- `table_entry`
abbrev pub table_entry : ℕ → ℕ
table_entry value = value % 2 ^ 63 / page_size * page_size

-- Where pages for tables come from.
pub record PageSource (S : Type 0) : Type 0 where
  pub alloc_page : S → Option (ℕ × S)

pub record Memory (S : Type 0) : Type 0 where
  pub pages : S
  pub words : Words

module _ {S : Type 0} (source : PageSource S) where
  unfoldable pub alloc_table_entry : Memory S → ℕ → ℕ → Option (ℕ × Memory S)
  alloc_table_entry m parent flags = do
    (table, pages) ← source.alloc_page m.pages
    some (
      table,
      record { pages = pages; words = store (zero_page m.words table) parent (table + flags) },
    )

  -- `parent` is the address of the entry.
  unfoldable pub alloc_if_not_present : Memory S → ℕ → ℕ → Option (ℕ × Memory S)
  alloc_if_not_present m parent flags =
      let entry = m.words parent in
      let old = require (check_bits entry == check_bits flags) >> some (table_entry entry, m) in
      let fresh = alloc_table_entry m parent flags in if is_present entry then old else fresh

  -- A round of the loop of `do_map_memory`.
  unfoldable pub map_page : ℕ → ℕ → Memory S → ℕ → ℕ → Option (Memory S)
  map_page pml4 type m virt phys = do
    (pdp, m1) ← alloc_if_not_present m (entry_at pml4 (pml4e virt)) (table_flags type)
    let big = record m1 {
      words = store m1.words (entry_at pdp (pdpe virt)) (phys + 2 ^ 7 + page_flags type);
    }
    if is_1gb type then some big else do
      (pd, m2) ← alloc_if_not_present m1 (entry_at pdp (pdpe virt)) (table_flags type)
      let middle = record m2 {
        words = store m2.words (entry_at pd (pde virt)) (phys + 2 ^ 7 + page_flags type);
      }
      if is_2mb type then some middle else do
        (pt, m3) ← alloc_if_not_present m2 (entry_at pd (pde virt)) (table_flags type)
        some
            (record m3 { words = store m3.words (entry_at pt (pte virt)) (phys + page_flags type) })

  -- The loop: `count` is the length in pages.
  unfoldable pub map_pages : ℕ → ℕ → ℕ → Memory S → ℕ → ℕ → Option (Memory S)
  map_pages pml4 type zero m virt phys = some m
  map_pages pml4 type (suc count) m virt phys = map_page pml4 type m virt phys >>= λ m'.
      map_pages pml4 type count m' (virt + memory_type_page_size type)
        (phys + memory_type_page_size type)

-- `present_table_entry`
unfoldable pub present_table_entry : ℕ → Option ℕ
present_table_entry value = require (is_present value) >> some (table_entry value)

-- A round of the loop of `do_unmap_memory`.
unfoldable pub unmap_page : ℕ → ℕ → Words → ℕ → Option Words
unmap_page pml4 type words virt = do
  pdp ← present_table_entry (words (entry_at pml4 (pml4e virt)))
  if is_1gb type then some (store words (entry_at pdp (pdpe virt)) 0) else do
    pd ← present_table_entry (words (entry_at pdp (pdpe virt)))
    if is_2mb type then some (store words (entry_at pd (pde virt)) 0) else do
      pt ← present_table_entry (words (entry_at pd (pde virt)))
      some (store words (entry_at pt (pte virt)) 0)

unfoldable pub unmap_pages : ℕ → ℕ → ℕ → Words → ℕ → Option Words
unmap_pages pml4 type zero words virt = some words
unmap_pages pml4 type (suc count) words virt = unmap_page pml4 type words virt >>= λ words'.
    unmap_pages pml4 type count words' (virt + memory_type_page_size type)

-- `virt_to_phys`, from the physical address of the top table.
unfoldable pub virt_to_phys : Words → ℕ → ℕ → Option ℕ
virt_to_phys words pml4 virt = do
  let e4 = words (entry_at (table_entry pml4) (pml4e virt))
  require (is_present e4)
  let e3 = words (entry_at (table_entry e4) (pdpe virt))
  require (is_present e3)
  if is_pagesize e3 then some (e3 % 2 ^ 63 / 2 ^ 30 * 2 ^ 30 + virt % 2 ^ 30) else do
    let e2 = words (entry_at (table_entry e3) (pde virt))
    require (is_present e2)
    if is_pagesize e2 then some (e2 % 2 ^ 63 / 2 ^ 21 * 2 ^ 21 + virt % 2 ^ 21) else do
      let e1 = words (entry_at (table_entry e2) (pte virt))
      require (is_present e1)
      some (table_entry e1 + virt % page_size)
