-- ===== src/Paging/RoundTrip.antt =====
-- A mapping of kernel/mm.cpp that is made and released again.
use attos.Common.{ℕ, ◌+◌, ◌≤◌, ◌<◌, ◌≡◌, sym, ◌∙◌, none, some, subst}
use attos.Paging.Tables.{PageSource, virt_to_phys}
use attos.Paging.Shape.{Place, IsPageSource}
use attos.Paging.Manager.{Mapping, Manager, do_map_memory, do_unmap_memory}
use attos.Paging.Mappings.{IsHalf}
use attos.Paging.Removal.{insert_mapping_split}
use attos.Paging.Sound.{IsSound}
use attos.Paging.Whole.{KeepsOutside}
use attos.Paging.Contract.{do_map_memory_lem}
use attos.Paging.Release.{do_unmap_memory_lem}

module _ {S : Type 0} (source : PageSource S) (used : S → ℕ → Type 0)
    (sound : IsPageSource source used) where
  -- A range that do_map_memory has returned, in one half of the canonical addresses, can be unmapped: that
  -- succeeds, restores the list of mappings, leaves no translation in the range, and keeps every translation
  -- from before the two calls for the other addresses of the half.
  pub do_unmap_memory-do_map_memory :
      (base hi : ℕ) (place : ℕ → Place) (mm mm' : Manager S) (virt length type phys v : ℕ)
      → IsHalf base hi
      → IsSound used base hi place mm
      → do_map_memory source mm virt length type phys ≡ some (v, mm')
      → base ≤ v
      → v + length ≤ hi
      → (mm'' : Manager S) × (do_unmap_memory mm' v length ≡ some mm'')
        × ((place' : ℕ → Place) × IsSound used base hi place' mm'')
        × (mm''.mappings ≡ mm.mappings)
        × ((off : ℕ) → off < length → virt_to_phys mm''.memory.words mm.pml4 (v + off) ≡ none)
        × KeepsOutside base hi v length mm.memory.words mm''.memory.words mm.pml4
  do_unmap_memory-do_map_memory base hi place mm mm' virt length type phys v half ok e low top =
      let (place', (ok', same_top, entered, here, kept)) =
        do_map_memory_lem source used sound base hi place mm mm' virt length type phys v half ok e
          low top in
      let n : Mapping = record { address = v; length = length; type = type } in
      let (before, after, split, rest) = insert_mapping_split n mm.mappings in
      let (mm'', done, (ok'', top'', left, gone, same)) =
        do_unmap_memory_lem used base hi place' mm' n before after half ok' (entered ∙ split) in
      (
        mm'',
        done,
        (place', ok''),
        left ∙ rest,
        (λ off lt.
            subst (λ t. virt_to_phys mm''.memory.words t (v + off) ≡ none) same_top (gone off lt)),
        (λ virt' r bv vt out old.
            subst (λ t. virt_to_phys mm''.memory.words t virt' ≡ some r) same_top
              (same virt' bv vt out
                ∙ subst (λ t. virt_to_phys mm'.memory.words t virt' ≡ some r) (sym same_top)
                    (kept virt' r bv vt out old))),
      )
