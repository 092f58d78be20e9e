-- ===== src/Paging/Contract.antt =====
-- `map_memory` and `unmap_memory` of kernel/mm.cpp as their callers see them.
use attos.Common.{
  ℕ, ◌+◌, ◌%◌, ◌^◌, ◌≤◌, ◌≡◌, sym, ◌==◌, leb, ltb, some, arith, inl, inr, subst, bind-some,
  require-some, u64, Bool-cases, if-true, if-false,
}
use attos.Paging.Address.{page_size, memory_type_page_size}
use attos.Paging.Tables.{PageSource}
use attos.Paging.Shape.{Place, IsPageSource}
use attos.Paging.Manager.{
  Manager, do_map_memory, choose_virt, virtual_alloc, map_alloc_virt,
  map_alloc_virt_close_to_kernel,
}
use attos.Paging.Mappings.{IsHalf}
use attos.Paging.Sound.{IsSound}
use attos.Paging.Whole.{IsMappedAt, map_at_lem, map_at-Steps}

module _ {S : Type 0} (source : PageSource S) where
  virtual_alloc_keeps :
      (mm mm' : Manager S) (length v : ℕ)
      → virtual_alloc source mm length ≡ some (v, mm')
      → (free : ℕ) × (record mm { free_virt_base = free } ≡ mm')
  unfolding virtual_alloc
  virtual_alloc_keeps mm mm' length v e =
      let c1 = require-some (length % page_size == 0) _ _ e in
      let c2 = require-some (leb mm.free_virt_base (u64 (mm.free_virt_base + length))) _ _ c1.1 in
      (u64 (mm.free_virt_base + length), ground (arith, c2.1))

  choose_virt_keeps :
      (mm mm' : Manager S) (virt length v : ℕ)
      → choose_virt source mm virt length ≡ some (v, mm')
      → (free : ℕ) × (record mm { free_virt_base = free } ≡ mm')
  unfolding choose_virt
  choose_virt_keeps mm mm' virt length v e = elim (Bool-cases (virt == map_alloc_virt)) [
    | inl fresh ↦
        virtual_alloc_keeps mm mm' length v (if-true (virt == map_alloc_virt) _ _ _ fresh e)
    | inr other ↦
        let rest = if-false (virt == map_alloc_virt) _ _ _ other e in
        elim (Bool-cases (virt == map_alloc_virt_close_to_kernel)) [
          | inl fresh ↦
              virtual_alloc_keeps mm mm' length v
                (if-true (virt == map_alloc_virt_close_to_kernel) _ _ _ fresh rest)
          | inr given ↦ (
            mm.free_virt_base,
            ground (arith, if-false (virt == map_alloc_virt_close_to_kernel) _ _ _ given rest),
          )
        ]
  ]

module _ {S : Type 0} (source : PageSource S) (used : S → ℕ → Type 0)
    (sound : IsPageSource source used) where
  -- If the mappings and the tables agree, and do_map_memory returns an address whose range lies in one half of
  -- the canonical addresses, then the mappings and the tables agree afterwards, with the new mapping entered;
  -- every address of the range translates to the physical address that was asked for; and every address of the
  -- half outside the range that had a translation still has the same. This holds for the three page sizes.
  pub do_map_memory_lem :
      (base hi : ℕ) (place : ℕ → Place) (mm mm' : Manager S) (virt length type phys v : ℕ)
      → IsHalf base hi
      → IsSound used base hi place mm
      → do_map_memory source mm virt length type phys ≡ some (v, mm')
      → base ≤ v
      → v + length ≤ hi
      → (place' : ℕ → Place) × IsMappedAt used base hi mm v length type phys mm' place'
  unfolding do_map_memory
  do_map_memory_lem base hi place mm mm' virt length type phys v half ok e low top =
      let c1 = require-some (ltb 0 length) _ _ e in
      let c2 = require-some (length % memory_type_page_size type == 0) _ _ c1.1 in
      let c3 = require-some (phys % memory_type_page_size type == 0) _ _ c2.1 in
      let c4 = require-some (ltb phys (2 ^ 32)) _ _ c3.1 in
      let b = bind-some (choose_virt source mm virt length) _ _ c4.1 in
      let chosen : ℕ = b.0.0 in
      let mm1 : Manager S = b.0.1 in
      let (free, same) = choose_virt_keeps source mm mm1 virt length chosen b.1 in
      let (used_bytes', memory', steps) =
        map_at-Steps source mm1 mm' chosen length type phys v b.2 in
      let same_v : v ≡ chosen = steps.3 in
      let ok1 : IsSound used base hi place mm1 =
        subst (IsSound used base hi place) same
          (record { shaped = ok.shaped; top = ok.top; mapped = ok.mapped }) in
      let done =
        map_at_lem source used sound base hi place mm1 mm' chosen length type phys v half ok1
          (subst (λ x. base ≤ x) same_v low) (subst (λ x. x + length ≤ hi) same_v top)
          (ground (arith, c1.0)) (ground (arith, c2.0)) (ground (arith, c3.0))
          (ground (arith, c4.0)) b.2 in
      let (place', whole) = done.1 in
      (
        place',
        subst (λ x. IsMappedAt used base hi mm x length type phys mm' place') (sym same_v)
            (subst
              (λ x.
                IsMappedAt used base hi x chosen length type phys mm' place'
                → IsMappedAt used base hi mm chosen length type phys mm' place')
              same (λ w. w) whole),
      )
