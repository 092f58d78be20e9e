-- ===== src/Paging/Release.antt =====
-- `do_unmap_memory` of kernel/mm.cpp as a whole.
use attos.Common.{
  ℕ, ◌+◌, ◌*◌, ◌/◌, ◌^◌, ◌≤◌, ◌<◌, ◌≡◌, refl, sym, ap, ◌∙◌, Option, none, some, List, ◌∷◌, ◌++◌,
  arith, ◌⊎◌, subst,
}
use attos.Paging.Address.{memory_type_page_size}
use attos.Paging.Tables.{Words, table_entry, virt_to_phys}
use attos.Paging.Shape.{Place}
use attos.Paging.Walk.{walk_of, virt_to_phys_of}
use attos.Paging.Loop.{unmap_pages_lem, IsGone}
use attos.Paging.Pages.{IsSize, Outside, memory_type_page_size-IsSize}
use attos.Paging.Manager.{Mapping, Manager, find_mapping, remove_mapping, do_unmap_memory}
use attos.Paging.Mappings.{IsHalf, end_of, Apart, Chain}
use attos.Paging.Removal.{
  Chain-at, find_mapping_at, remove_mapping_at, remove_mapping_again, Chain-remove,
}
use attos.Paging.Sound.{IsMapping, IsSound, Apart-Outside}
use attos.Paging.Whole.{whole_pages, table_entry_of, half_length, byte_apart}

-- Two lookups that give the same results are equal.
same_results :
    (a b : Option ℕ)
    → ((r : ℕ) → a ≡ some r → b ≡ some r)
    → ((r : ℕ) → b ≡ some r → a ≡ some r)
    → a ≡ b
same_results none none f g = refl
same_results none (some r) f g = g r refl
same_results (some r) b f g = sym (f r refl)

no_results : (a : Option ℕ) → ((r : ℕ) → ¬ (a ≡ some r)) → a ≡ none
no_results none f = refl
no_results (some r) f = absurd (f r refl)

-- Addresses of one half outside a range translate alike.
abbrev pub SameOutside : ℕ → ℕ → ℕ → ℕ → Words → Words → ℕ → Type 0
SameOutside base hi virt length words words' top =
    (virt' : ℕ)
    → base ≤ virt'
    → virt' < hi
    → (virt' < virt) ⊎ (virt + length ≤ virt')
    → virt_to_phys words' top virt' ≡ virt_to_phys words top virt'

module _ {S : Type 0} (used : S → ℕ → Type 0) where
  abbrev pub IsReleased :
      ℕ → ℕ → (ℕ → Place) → Manager S → Mapping → List Mapping → Manager S → Type 0
  IsReleased base hi place mm n rest mm' =
      IsSound used base hi place mm'
      × (mm'.pml4 ≡ mm.pml4)
      × (mm'.mappings ≡ rest)
      × ((off : ℕ)
          → off < n.length
          → virt_to_phys mm'.memory.words mm.pml4 (n.address + off) ≡ none)
      × SameOutside base hi n.address n.length mm.memory.words mm'.memory.words mm.pml4

  pub released :
      (base hi : ℕ) (place : ℕ → Place) (mm : Manager S) (n : Mapping) (before after : List Mapping)
      (words' : Words)
      → IsHalf base hi
      → IsSound used base hi place mm
      → mm.mappings ≡ before ++ n ∷ after
      → IsGone used
          (memory_type_page_size n.type)
          (n.length / memory_type_page_size n.type)
          place
          mm.memory
          mm.pml4
          n.address
          words'
      → IsReleased base hi place mm n (before ++ after) (record mm {
        memory = record { pages = mm.memory.pages; words = words' };
        mappings = before ++ after;
      })
  released base hi place mm n before after words' half ok split gone =
      let size : ℕ = memory_type_page_size n.type in
      let is_size : IsSize size = memory_type_page_size-IsSize n.type in
      let chain = subst (Chain (IsMapping mm.memory.words mm.pml4) base hi) split ok.mapped in
      let (low, top, pos, own) =
        Chain-at (IsMapping mm.memory.words mm.pml4) base hi n before after chain in
      let whole : n.length / size * size ≡ n.length =
        whole_pages size n.length is_size own.length_aligned in
      let outside : (m : Mapping) (off : ℕ)
          → base ≤ m.address
          → end_of m ≤ hi
          → Apart n m
          → off < m.length
          → Outside size (n.length / size) n.address (m.address + off) =
        λ m off mb mt apart lt.
          Apart-Outside base hi size n m off half is_size own.address_aligned low top mb mt apart lt
            (n.length / size) whole in
      let left : Chain (IsMapping words' mm.pml4) base hi (before ++ after) =
        Chain-remove (IsMapping mm.memory.words mm.pml4) (IsMapping words' mm.pml4) base hi n before
          after
          (λ m mb mt apart old. record {
            address_aligned = old.address_aligned;
            length_aligned = old.length_aligned;
            leads = λ off lt.
                (let q = old.leads off lt in
                  (
                    q.0,
                    gone.2 (m.address + off) (memory_type_page_size m.type) q.0
                        (outside m off mb mt apart lt) q.1,
                  ));
          })
          chain in
      let self : table_entry mm.pml4 ≡ mm.pml4 =
        table_entry_of mm.pml4 (ok.shaped.on_page mm.pml4 4 0 ok.top) in
      let way : (virt' : ℕ)
          → base ≤ virt'
          → virt' < hi
          → (virt' < n.address) ⊎ (n.address + n.length ≤ virt')
          → Outside size (n.length / size) n.address virt' =
        λ virt' bv vt out. subst (Outside size (n.length / size) n.address) (omega arith) (
          outside (record { address = virt'; length = 1; type = 0 }) 0 bv (omega (arith, vt))
            (byte_apart n.address virt' n.length out) (omega arith)) in
      (
        record { shaped = gone.0; top = ok.top; mapped = left },
        refl,
        refl,
        (λ off lt. no_results (virt_to_phys words' mm.pml4 (n.address + off)) (λ r e.
            (let q = walk_of words' mm.pml4 (n.address + off) r self e in
              gone.1 off q.0 r (omega (arith, whole, lt)) q.1))),
        (λ virt' bv vt out.
            same_results (virt_to_phys words' mm.pml4 virt')
              (virt_to_phys mm.memory.words mm.pml4 virt')
              (λ r e.
                (let q = walk_of words' mm.pml4 virt' r self e in
                  virt_to_phys_of mm.memory.words mm.pml4 virt' q.0 r self
                    (gone.3 virt' q.0 r (way virt' bv vt out) q.1)))
              (λ r e.
                (let q = walk_of mm.memory.words mm.pml4 virt' r self e in
                  virt_to_phys_of words' mm.pml4 virt' q.0 r self
                    (gone.2 virt' q.0 r (way virt' bv vt out) q.1)))),
      )

  -- If the mappings and the tables agree, then do_unmap_memory succeeds for the address and the length of any
  -- mapping in one half of the canonical addresses: the mapping is gone and the others are left, no address of
  -- its range has a translation, and every other address of the half translates as before.
  pub do_unmap_memory_lem :
      (base hi : ℕ) (place : ℕ → Place) (mm : Manager S) (n : Mapping) (before after : List Mapping)
      → IsHalf base hi
      → IsSound used base hi place mm
      → mm.mappings ≡ before ++ n ∷ after
      → (mm' : Manager S) × (do_unmap_memory mm n.address n.length ≡ some mm')
        × IsReleased base hi place mm n (before ++ after) mm'
  unfolding do_unmap_memory
  do_unmap_memory_lem base hi place mm n before after half ok split =
      let size : ℕ = memory_type_page_size n.type in
      let is_size : IsSize size = memory_type_page_size-IsSize n.type in
      let P : Mapping → Type 0 = IsMapping mm.memory.words mm.pml4 in
      let chain = subst (Chain P base hi) split ok.mapped in
      let (low, top, pos, own) = Chain-at P base hi n before after chain in
      let whole : n.length / size * size ≡ n.length =
        whole_pages size n.length is_size own.length_aligned in
      let short : n.length ≤ 2 ^ 47 = half_length base hi n.address n.length half low top in
      let (words', done, gone) =
        unmap_pages_lem used (n.length / size) place mm.memory n.type mm.pml4 n.address ok.shaped
          ok.top own.address_aligned (omega (arith, whole, short))
          (λ off lt. own.leads off (omega (arith, whole, lt))) in
      let found : find_mapping mm.mappings n.address n.length ≡ some n =
        ap (λ l. find_mapping l n.address n.length) split
        ∙ find_mapping_at P base base hi n before after half (omega arith) chain in
      let once : remove_mapping n mm.mappings ≡ before ++ after =
        ap (remove_mapping n) split ∙ remove_mapping_at P base hi n before after chain in
      let twice : remove_mapping n (remove_mapping n mm.mappings) ≡ before ++ after =
        ap (remove_mapping n) once ∙ remove_mapping_again P base hi n before after chain in
      (
        record mm {
          memory = record { pages = mm.memory.pages; words = words' };
          mappings = before ++ after;
        },
        ground (arith, found, done, twice),
        released base hi place mm n before after words' half ok split gone,
      )
