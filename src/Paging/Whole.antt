-- ===== src/Paging/Whole.antt =====
-- `do_map_memory` of kernel/mm.cpp as a whole.
use attos.Common.{
  ℕ, ◌+◌, ◌*◌, ◌/◌, ◌%◌, ◌^◌, ◌≤◌, ◌<◌, ◌≡◌, refl, ◌==◌, not, ltb, none, some, arith, ◌⊎◌, inl, inr,
  subst, bind-some, require-some, is_none, is_none-none, u64,
}
use attos.Paging.Address.{page_size, memory_type_page_size, is_read}
use attos.Paging.Tables.{Words, Memory, PageSource, map_pages, table_entry, virt_to_phys}
use attos.Paging.Shape.{Place, IsPageSource}
use attos.Paging.Walk.{Walks, walk_of, virt_to_phys_of}
use attos.Paging.Loop.{map_pages_lem, IsRange}
use attos.Paging.Pages.{IsSize, small, middle, large, memory_type_page_size-IsSize}
use attos.Paging.Manager.{
  Mapping, Manager, find_mapping, insert_mapping, map_at, no_free_alloc, mapping_size,
}
use attos.Paging.Mappings.{IsHalf, end_of, Apart, Chain, Chain-insert}
use attos.Paging.Sound.{IsMapping, IsSound, Apart-Outside}

pub whole_pages :
    (size length : ℕ) → IsSize size → length % size ≡ 0 → length / size * size ≡ length
whole_pages _ length small al = omega arith
whole_pages _ length middle al = omega arith
whole_pages _ length large al = omega arith

-- A table's own address is an entry's.
pub table_entry_of : (p : ℕ) → (p % page_size ≡ 0) × (p < 2 ^ 52) → table_entry p ≡ p
table_entry_of p (al, lt) = omega (arith, al, lt)

-- Translations outside a range of addresses of one half.
abbrev pub KeepsOutside : ℕ → ℕ → ℕ → ℕ → Words → Words → ℕ → Type 0
KeepsOutside base hi virt length words words' top =
    (virt' r : ℕ)
    → base ≤ virt'
    → virt' < hi
    → (virt' < virt) ⊎ (virt + length ≤ virt')
    → virt_to_phys words top virt' ≡ some r
    → virt_to_phys words' top virt' ≡ some r

-- A manager after a mapping has been entered and its pages mapped.
abbrev pub after_map : {S : Type 0} → Manager S → ℕ → ℕ → ℕ → ℕ → Memory S → Manager S
after_map mm virt length type used_bytes' memory' = record mm {
  memory = memory';
  mappings = insert_mapping (record { address = virt; length = length; type = type }) mm.mappings;
  used_bytes = used_bytes';
}

module _ {S : Type 0} (source : PageSource S) where
  -- What `map_at` has checked and done when it returns.
  abbrev pub Steps : Manager S → ℕ → ℕ → ℕ → ℕ → ℕ → Manager S → ℕ → Memory S → Type 0
  Steps mm virt length type phys v mm' used_bytes' memory' =
      (virt % memory_type_page_size type ≡ 0)
      × (find_mapping mm.mappings virt length ≡ none)
      × (map_pages source mm.pml4 type (length / memory_type_page_size type) mm.memory virt phys
          ≡ some memory')
      × (v ≡ virt)
      × (after_map mm virt length type used_bytes' memory' ≡ mm')

  pub map_at-Steps :
      (mm mm' : Manager S) (virt length type phys v : ℕ)
      → map_at source mm virt length type phys ≡ some (v, mm')
      → (used_bytes' : ℕ) × (memory' : Memory S) × Steps mm virt length type phys v mm' used_bytes'
          memory'
  unfolding map_at
  map_at-Steps mm mm' virt length type phys v e =
      let c1 = require-some (virt % memory_type_page_size type == 0) _ _ e in
      let c2 = require-some (ltb virt (u64 (virt + length))) _ _ c1.1 in
      let c3 = require-some (is_none (find_mapping mm.mappings virt length)) _ _ c2.1 in
      let c4 = require-some (is_read type) _ _ c3.1 in
      let c5 = require-some (not (length == 0)) _ _ c4.1 in
      let b1 = bind-some (no_free_alloc 8 page_size mm.used_bytes mapping_size) _ _ c5.1 in
      let b2 =
        bind-some
          (map_pages source mm.pml4 type (length / memory_type_page_size type) mm.memory virt phys)
          _ _ b1.2 in
      (
        b1.0,
        b2.0,
        (
          ground (arith, c1.0),
          is_none-none (find_mapping mm.mappings virt length) c3.0,
          b2.1,
          ground (arith, b2.2),
          ground (arith, b2.2),
        ),
      )

pub byte_apart :
    (virt virt' length : ℕ)
    → (virt' < virt) ⊎ (virt + length ≤ virt')
    → (virt + length ≤ virt') ⊎ (virt' + 1 ≤ virt)
byte_apart virt virt' length (inl below) = inr (omega (arith, below))
byte_apart virt virt' length (inr above) = inl above

pub half_length :
    (base hi virt length : ℕ) → IsHalf base hi → base ≤ virt → virt + length ≤ hi → length ≤ 2 ^ 47
half_length base hi virt length (inl (b, h)) low top = omega (arith, b, h, low, top)
half_length base hi virt length (inr (b, h)) low top = omega (arith, b, h, low, top)

module _ {S : Type 0} (used : S → ℕ → Type 0) where
  -- The range is mapped, the mappings and tables agree as before, and other addresses translate as before.
  abbrev pub IsMappedAt : ℕ → ℕ → Manager S → ℕ → ℕ → ℕ → ℕ → Manager S → (ℕ → Place) → Type 0
  IsMappedAt base hi mm virt length type phys mm' place' =
      IsSound used base hi place' mm'
      × (mm'.pml4 ≡ mm.pml4)
      × (mm'.mappings
          ≡ insert_mapping (record { address = virt; length = length; type = type }) mm.mappings)
      × ((off : ℕ)
          → off < length
          → virt_to_phys mm'.memory.words mm'.pml4 (virt + off) ≡ some (phys + off))
      × KeepsOutside base hi virt length mm.memory.words mm'.memory.words mm.pml4

  mapped_range :
      (base hi : ℕ) (place place' : ℕ → Place) (mm : Manager S)
      (virt length type phys used_bytes' : ℕ) (memory' : Memory S)
      → IsHalf base hi
      → IsSound used base hi place mm
      → base ≤ virt
      → virt + length ≤ hi
      → 0 < length
      → length % memory_type_page_size type ≡ 0
      → virt % memory_type_page_size type ≡ 0
      → find_mapping mm.mappings virt length ≡ none
      → IsRange used
          (memory_type_page_size type)
          (length / memory_type_page_size type)
          mm.memory.words
          mm.pml4
          virt
          phys
          memory'
          place'
      → IsMappedAt base hi mm virt length type phys
          (after_map mm virt length type used_bytes' memory')
          place'
  mapped_range base hi place place' mm virt length type phys used_bytes' memory' half v low top pos
        lal val gone range =
      let size : ℕ = memory_type_page_size type in
      let is_size : IsSize size = memory_type_page_size-IsSize type in
      let whole : length / size * size ≡ length = whole_pages size length is_size lal in
      let n : Mapping = record { address = virt; length = length; type = type } in
      let words' : Words = memory'.words in
      let apart_keeps : (m : Mapping) (off r k : ℕ)
          → base ≤ m.address
          → end_of m ≤ hi
          → Apart n m
          → off < m.length
          → Walks mm.memory.words mm.pml4 (m.address + off) k r
          → Walks words' mm.pml4 (m.address + off) k r =
        λ m off r k mb mt apart lt walk.
          range.3 (m.address + off) k r
            (Apart-Outside base hi size n m off half is_size val low top mb mt apart lt
              (length / size) whole)
            walk in
      let here : (off : ℕ) → off < length → Walks words' mm.pml4 (virt + off) size (phys + off) =
        λ off lt. range.2 off (omega (arith, whole, lt)) in
      let new : IsMapping words' mm.pml4 n = record {
        address_aligned = val;
        length_aligned = lal;
        leads = λ off lt. (phys + off, here off lt);
      } in
      let chain : Chain (IsMapping words' mm.pml4) base hi (insert_mapping n mm.mappings) =
        Chain-insert (IsMapping mm.memory.words mm.pml4) (IsMapping words' mm.pml4) base base hi n
          mm.mappings half (omega arith) low top pos new
          (λ m mb mt apart old. record {
            address_aligned = old.address_aligned;
            length_aligned = old.length_aligned;
            leads = λ off lt.
                (let q = old.leads off lt in
                  (q.0, apart_keeps m off q.0 (memory_type_page_size m.type) mb mt apart lt q.1));
          })
          gone v.mapped in
      let own : table_entry mm.pml4 ≡ mm.pml4 =
        table_entry_of mm.pml4 (v.shaped.on_page mm.pml4 4 0 v.top) in
      (
        record { shaped = range.0; top = range.1; mapped = chain },
        refl,
        refl,
        (λ off lt. virt_to_phys_of words' mm.pml4 (virt + off) size (phys + off) own (here off lt)),
        (λ virt' r bv vt out e.
            let q = walk_of mm.memory.words mm.pml4 virt' r own e in
            let byte : Mapping = record { address = virt'; length = 1; type = 0 } in
            virt_to_phys_of words' mm.pml4 virt' q.0 r own (
              subst (λ x. Walks words' mm.pml4 x q.0 r) (omega arith)
                (apart_keeps byte 0 r q.0 bv (omega (arith, vt)) (byte_apart virt virt' length out)
                  (omega arith)
                  (subst (λ x. Walks mm.memory.words mm.pml4 x q.0 r) (omega arith) q.1)))),
      )

module _ {S : Type 0} (source : PageSource S) (used : S → ℕ → Type 0)
    (sound : IsPageSource source used) where
  pub map_at_lem :
      (base hi : ℕ) (place : ℕ → Place) (mm mm' : Manager S) (virt length type phys v : ℕ)
      → IsHalf base hi
      → IsSound used base hi place mm
      → base ≤ virt
      → virt + length ≤ hi
      → 0 < length
      → length % memory_type_page_size type ≡ 0
      → phys % memory_type_page_size type ≡ 0
      → phys < 2 ^ 32
      → map_at source mm virt length type phys ≡ some (v, mm')
      → (v ≡ virt)
        × ((place' : ℕ → Place) × IsMappedAt used base hi mm virt length type phys mm' place')
  map_at_lem base hi place mm mm' virt length type phys v half ok low top pos lal pal lt e =
      let size : ℕ = memory_type_page_size type in
      let (used_bytes', memory', (val, gone, mapped, same_v, same)) =
        map_at-Steps source mm mm' virt length type phys v e in
      let whole : length / size * size ≡ length =
        whole_pages size length (memory_type_page_size-IsSize type) lal in
      let short : length ≤ 2 ^ 47 = half_length base hi virt length half low top in
      let (place', range) =
        map_pages_lem source used sound (length / size) place mm.memory memory' type mm.pml4 virt
          phys ok.shaped ok.top val pal (omega (arith, whole, short, lt))
          (omega (arith, whole, short)) mapped in
      let done =
        mapped_range used base hi place place' mm virt length type phys used_bytes' memory' half ok
          low top pos lal val gone range in
      (
        same_v,
        (place', subst (λ x. IsMappedAt used base hi mm virt length type phys x place') same done),
      )
