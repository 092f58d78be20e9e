-- ===== src/Paging/Address.antt =====
-- Virtual addresses, memory types and areas of attos/mem.h, and the flags of page table entries.
use attos.Common.{
  ℕ, ◌+◌, ◌-◌, ◌*◌, ◌/◌, ◌%◌, ◌^◌, ◌==◌, ◌&&◌, Bool, ltb, if◌then◌else◌, min, max, u64,
}

abbrev pub page_size : ℕ
page_size = 4096

abbrev pub table_size : ℕ
table_size = 512

-- `virtual_address::pml4e`, `pdpe`, `pde` and `pte`
abbrev pub pml4e : ℕ → ℕ
pml4e virt = virt / 2 ^ 39 % 512

abbrev pub pdpe : ℕ → ℕ
pdpe virt = virt / 2 ^ 30 % 512

abbrev pub pde : ℕ → ℕ
pde virt = virt / 2 ^ 21 % 512

abbrev pub pte : ℕ → ℕ
pte virt = virt / 2 ^ 12 % 512

-- Single bits of a `memory_type`.
abbrev pub is_read : ℕ → Bool
is_read type = type % 2 == 1

abbrev pub is_write : ℕ → Bool
is_write type = type / 2 % 2 == 1

abbrev pub is_execute : ℕ → Bool
is_execute type = type / 4 % 2 == 1

abbrev pub is_user : ℕ → Bool
is_user type = type / 8 % 2 == 1

abbrev pub is_cache_disable : ℕ → Bool
is_cache_disable type = type / 16 % 2 == 1

abbrev pub is_2mb : ℕ → Bool
is_2mb type = type / 2 ^ 12 % 2 == 1

abbrev pub is_1gb : ℕ → Bool
is_1gb type = type / 2 ^ 13 % 2 == 1

abbrev pub memory_type_page_size : ℕ → ℕ
memory_type_page_size type =
    if is_1gb type then 2 ^ 30 else if is_2mb type then 2 * 2 ^ 20 else 2 ^ 12

-- `memory_areas_overlap`: the difference is read as a signed 64-bit number.
unfoldable pub memory_areas_overlap : ℕ → ℕ → ℕ → ℕ → Bool
memory_areas_overlap start1 len1 start2 len2 =
    let difference =
      u64 (2 ^ 64 + min (u64 (start1 + len1)) (u64 (start2 + len2)) - max start1 start2) in
    ltb 0 difference && ltb difference (2 ^ 63)

-- The flags of an entry: no two of them share a bit, so that `|` is a sum.
abbrev pub is_present : ℕ → Bool
is_present entry = entry % 2 == 1

abbrev pub is_pagesize : ℕ → Bool
is_pagesize entry = entry / 2 ^ 7 % 2 == 1

-- `flags` of `do_map_memory`, with which a table is entered after `PAGEF_WRITE` is added.
abbrev pub flags_of : ℕ → ℕ
flags_of type = 1 + (if is_user type then 4 else 0)

abbrev pub table_flags : ℕ → ℕ
table_flags type = flags_of type + 2

-- `page_flags`
abbrev pub page_flags : ℕ → ℕ
page_flags type =
    flags_of type
    + (if is_write type then 2 else 0)
    + (if is_execute type then 0 else 2 ^ 63)
    + (if is_cache_disable type then 8 + 16 else 0)

-- The bits of `check_mask`: all flags but `PAGEF_ACCESSED` and `PAGEF_DIRTY`.
abbrev pub check_bits : ℕ → ℕ
check_bits entry = entry / 2 ^ 63 % 2 * 2 ^ 63 + entry / 2 ^ 7 % 2 ^ 5 * 2 ^ 7 + entry % 2 ^ 5
