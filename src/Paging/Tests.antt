-- ===== src/Paging/Tests.antt =====
-- The memory manager of kernel/mm.cpp on concrete tables.
use attos.Common.{
  ℕ, zero, suc, ◌+◌, ◌-◌, ◌*◌, ◌/◌, ◌%◌, ◌^◌, ◌≤◌, ◌<◌, ◌≡◌, ◌≢◌, refl, sym, ap, ◌∙◌, ◌==◌, Bool,
  true, false, not, leb, ltb, Option, none, some, List, [], ◌∷◌, ◌++◌, arith, ◌⊎◌, inl, inr, subst,
  bind-some, require-some, ◌>>=◌, ◌>>◌, require, Bool-cases, if◌then◌else◌, min, max,
}
use attos.Paging.Address.{memory_areas_overlap}
use attos.Paging.Tables.{
  PageSource, virt_to_phys, map_pages, map_page, alloc_if_not_present, alloc_table_entry,
}
use attos.Paging.Shape.{Place, unused, table, IsPageSource}
use attos.Paging.Manager.{
  Mapping, Manager, find_mapping, insert_mapping, map_at, do_map_memory, choose_virt, virtual_alloc,
  do_unmap_memory, no_free_alloc,
}
use attos.Paging.Mappings.{memory_areas_overlap_lem}
use attos.Paging.Sound.{IsSound}
use attos.Paging.Whole.{KeepsOutside, IsMappedAt}
use attos.Paging.Contract.{do_map_memory_lem}
use attos.Paging.Release.{do_unmap_memory_lem, IsReleased}
use attos.Paging.RoundTrip.{do_unmap_memory-do_map_memory}

-- Pages from address 0 on, one after the other: the state is how many have been given out.
abbrev pages_in_order : PageSource ℕ
pages_in_order = record {
  alloc_page = λ given. require (ltb given (2 ^ 20)) >> some (given * 4096, suc given);
}

abbrev GivenOut : ℕ → ℕ → Type 0
GivenOut given page = page < given * 4096

pages_in_order_lem :
    (given given' p : ℕ)
    → pages_in_order.alloc_page given ≡ some (p, given')
    → (given < 2 ^ 20) × (p ≡ given * 4096) × (given' ≡ suc given)
pages_in_order_lem given given' p e =
    let c = require-some (ltb given (2 ^ 20)) _ _ e in
    (ground (arith, c.0), ground (arith, c.1), ground (arith, c.1))

pages_in_order_sound : IsPageSource pages_in_order GivenOut
pages_in_order_sound = record {
  fresh = λ given given' p e u.
      (let (lt, at, next) = pages_in_order_lem given given' p e in omega (arith, at, u));
  aligned = λ given given' p e.
      (let (lt, at, next) = pages_in_order_lem given given' p e in
        (omega (arith, at), omega (arith, at, lt)));
  taken = λ given given' p e.
      (let (lt, at, next) = pages_in_order_lem given given' p e in omega (arith, at, next));
  keeps = λ given given' p q e u.
      (let (lt, at, next) = pages_in_order_lem given given' p e in omega (arith, u, next));
}

-- A manager whose top table is the first page.
abbrev no_mappings : Manager ℕ
no_mappings = record {
  memory = record { pages = 1; words = λ a. 0 };
  pml4 = 0;
  mappings = [];
  used_bytes = 0;
  free_virt_base = 2 ^ 20;
}

abbrev top_only : ℕ → Place
top_only p = if p == 0 then table 4 0 else unused

top_only_at : (p l v : ℕ) → top_only p ≡ table l v → p ≡ 0
top_only_at p l v e = elim (Bool-cases (p == 0)) [
  | inl same ↦ ground (arith, same)
  | inr other ↦ absurd (ground (arith, other, e))
]

no_mappings-IsSound : IsSound GivenOut 0 (2 ^ 47) top_only no_mappings
no_mappings-IsSound = record {
  shaped = record {
    in_use = λ p l v e. (let z = top_only_at p l v e in omega (arith, z));
    on_page = λ p l v e. (let z = top_only_at p l v e in (omega (arith, z), omega (arith, z)));
    child = λ p l v i e hi pr ps. absurd (ground (arith, pr));
    top = λ p v i e hi pr. absurd (ground (arith, pr));
  };
  top = refl;
  mapped = omega arith;
}

abbrev result_of : Option (ℕ × Manager ℕ) → Manager ℕ
result_of none = no_mappings
result_of (some (v, mm)) = mm

-- Two pages, read and written by a user program, at an address of the manager's choice.
abbrev two_pages : Manager ℕ
two_pages = result_of (do_map_memory pages_in_order no_mappings (2 ^ 64 - 1) 8192 11 (2 ^ 21))

two_pages_made :
    do_map_memory pages_in_order no_mappings (2 ^ 64 - 1) 8192 11 (2 ^ 21)
    ≡ some (2 ^ 20, two_pages)
unfolding do_map_memory choose_virt virtual_alloc map_at find_mapping no_free_alloc map_pages
    map_page alloc_if_not_present alloc_table_entry attos.Common.Tests.is_none
two_pages_made = refl

abbrev range_of_two_pages : Mapping
range_of_two_pages = record { address = 2 ^ 20; length = 8192; type = 11 }

two_pages_sound :
    (place : ℕ → Place) × IsMappedAt GivenOut 0
      (2 ^ 47)
      no_mappings
      (2 ^ 20)
      8192
      11
      (2 ^ 21)
      two_pages
      place
two_pages_sound =
    do_map_memory_lem pages_in_order GivenOut pages_in_order_sound 0 (2 ^ 47) top_only no_mappings
      two_pages (2 ^ 64 - 1) 8192 11 (2 ^ 21) (2 ^ 20) (inl (refl, refl)) no_mappings-IsSound
      two_pages_made (omega arith) (omega arith)

do_map_memory_example :
    (place : ℕ → Place) × IsMappedAt GivenOut 0
      (2 ^ 47)
      no_mappings
      (2 ^ 20)
      8192
      11
      (2 ^ 21)
      two_pages
      place
do_map_memory_example =
    do_map_memory_lem pages_in_order GivenOut pages_in_order_sound 0 (2 ^ 47) top_only no_mappings
      two_pages (2 ^ 64 - 1) 8192 11 (2 ^ 21) (2 ^ 20) (inl (refl, refl)) no_mappings-IsSound
      two_pages_made (omega arith) (omega arith)

two_pages_list : two_pages.mappings ≡ range_of_two_pages ∷ []
unfolding do_map_memory choose_virt virtual_alloc map_at find_mapping no_free_alloc map_pages
    map_page alloc_if_not_present alloc_table_entry attos.Common.Tests.is_none insert_mapping
two_pages_list = refl

do_unmap_memory_example :
    (mm : Manager ℕ) × (do_unmap_memory two_pages (2 ^ 20) 8192 ≡ some mm)
    × IsReleased GivenOut 0 (2 ^ 47) two_pages_sound.0 two_pages range_of_two_pages [] mm
do_unmap_memory_example =
    do_unmap_memory_lem GivenOut 0 (2 ^ 47) two_pages_sound.0 two_pages range_of_two_pages [] []
      (inl (refl, refl)) two_pages_sound.1.0 two_pages_list

do_unmap_memory-do_map_memory_example :
    (mm : Manager ℕ) × (do_unmap_memory two_pages (2 ^ 20) 8192 ≡ some mm)
    × ((place : ℕ → Place) × IsSound GivenOut 0 (2 ^ 47) place mm)
    × (mm.mappings ≡ [])
    × ((off : ℕ) → off < 8192 → virt_to_phys mm.memory.words 0 (2 ^ 20 + off) ≡ none)
    × KeepsOutside 0 (2 ^ 47) (2 ^ 20) 8192 (λ a. 0) mm.memory.words 0
do_unmap_memory-do_map_memory_example =
    do_unmap_memory-do_map_memory pages_in_order GivenOut pages_in_order_sound 0 (2 ^ 47) top_only
      no_mappings two_pages (2 ^ 64 - 1) 8192 11 (2 ^ 21) (2 ^ 20) (inl (refl, refl))
      no_mappings-IsSound two_pages_made (omega arith) (omega arith)

memory_areas_overlap_example :
    memory_areas_overlap 4096 4096 8192 4096 ≡ ltb (max 4096 8192) (min (4096 + 4096) (8192 + 4096))
memory_areas_overlap_example =
    memory_areas_overlap_lem 0 (2 ^ 47) 4096 4096 8192 4096 (inl (refl, refl)) (omega arith)
      (omega arith) (omega arith) (omega arith)
