-- ===== src/Paging/Loop.antt =====
-- The loops of `do_map_memory` and `do_unmap_memory` in kernel/mm.cpp.
use attos.Common.{
  ℕ, zero, suc, ◌+◌, ◌-◌, ◌*◌, ◌%◌, ◌^◌, ◌≤◌, ◌<◌, ◌≡◌, refl, ap, ◌∙◌, ltb, some, ◌>>=◌, arith,
  Bool-cases, inl, inr, subst, bind-some,
}
use attos.Paging.Address.{memory_type_page_size}
use attos.Paging.Tables.{Words, Memory, PageSource, map_page, map_pages, unmap_pages}
use attos.Paging.Shape.{Place, table, IsShaped, IsPageSource}
use attos.Paging.Walk.{Walks}
use attos.Paging.Reach.{SameWay}
use attos.Paging.MapPage.{map_page_lem}
use attos.Paging.Unmap.{unmap_page_lem}
use attos.Paging.Pages.{
  IsSize, memory_type_page_size-IsSize, same_page, later_page, first_page, size_pos, next_aligned,
  Outside, Outside-rest, page_offset,
}

module _ {S : Type 0} (used : S → ℕ → Type 0) where
  -- A range of pages has been mapped, and all else translates as before.
  abbrev pub IsRange : ℕ → ℕ → Words → ℕ → ℕ → ℕ → Memory S → (ℕ → Place) → Type 0
  IsRange size count words top virt phys m' place' =
      IsShaped used place' m'
      × (place' top ≡ table 4 0)
      × ((off : ℕ) → off < count * size → Walks m'.words top (virt + off) size (phys + off))
      × ((virt' n r : ℕ)
          → Outside size count virt virt'
          → Walks words top virt' n r
          → Walks m'.words top virt' n r)

Walks-shift :
    (words : Words) (top virt phys size off : ℕ)
    → size ≤ off
    → Walks words top (virt + size + (off - size)) size (phys + size + (off - size))
    → Walks words top (virt + off) size (phys + off)
Walks-shift words top virt phys size off past walk =
    let same_virt : virt + size + (off - size) ≡ virt + off = omega arith in
    let same_phys : phys + size + (off - size) ≡ phys + off = omega arith in
    subst (λ v. Walks words top v size (phys + off)) same_virt
      (subst (λ p. Walks words top (virt + size + (off - size)) size p) same_phys walk)

module _ {S : Type 0} (source : PageSource S) (used : S → ℕ → Type 0)
    (sound : IsPageSource source used) where
  pub map_pages_lem :
      (count : ℕ) (place : ℕ → Place) (m m' : Memory S) (type top virt phys : ℕ)
      → IsShaped used place m
      → place top ≡ table 4 0
      → virt % memory_type_page_size type ≡ 0
      → phys % memory_type_page_size type ≡ 0
      → phys + count * memory_type_page_size type ≤ 2 ^ 52
      → count * memory_type_page_size type ≤ 2 ^ 48
      → map_pages source top type count m virt phys ≡ some m'
      → (place' : ℕ → Place) × IsRange used
          (memory_type_page_size type)
          count
          m.words
          top
          virt
          phys
          m'
          place'
  unfolding map_pages
  map_pages_lem zero place m m' type top virt phys shaped at av ap' lp lv e =
      let same : m ≡ m' = ground (arith, e) in
      (
        place,
        subst (λ x. IsRange used (memory_type_page_size type) 0 m.words top virt phys x place) same
            (shaped, at, (λ off lt. absurd (omega (arith, lt))), (λ virt' n r out walk. walk)),
      )
  map_pages_lem (suc count) place m m' type top virt phys shaped at av ap' lp lv e =
      let size : ℕ = memory_type_page_size type in
      let is_size : IsSize size = memory_type_page_size-IsSize type in
      let b = bind-some (map_page source top type m virt phys) _ _ e in
      let m1 : Memory S = b.0 in
      let (place1, (shaped1, at1, here, others)) =
        map_page_lem source used sound place m m1 type top virt phys shaped at ap' (ground arith)
          b.1 in
      let (place', (shaped', at', rest, outside)) =
        map_pages_lem count place1 m1 m' type top (virt + size) (phys + size) shaped1 at1
          (next_aligned size virt is_size av) (next_aligned size phys is_size ap')
          (omega (arith, lp)) (omega (arith, lv)) b.2 in
      (
        place',
        (
          shaped',
          at',
          (λ off lt. elim (Bool-cases (ltb off size)) [
            | inl near ↦
                outside (virt + off) size (phys + off)
                  (λ k hk. later_page size virt off count k is_size av (ground (arith, near)) lv hk)
                  (subst (λ o. Walks m1.words top (virt + off) size (phys + o))
                    (page_offset size virt off is_size av (ground (arith, near)))
                    (here (virt + off) (same_page size virt off is_size av (ground (arith, near)))))
            | inr far ↦
                let past : size ≤ off = ground (arith, far) in
                Walks-shift m'.words top virt phys size off past
                  (rest (off - size) (omega (arith, lt, past)))
          ]),
          (λ virt' n r out walk. outside virt' n r (Outside-rest size count virt virt' out) (
              others virt' n r
                (subst (λ x. ¬ SameWay size x virt') (ground arith) (out 0 (omega arith))) walk)),
        ),
      )

module _ {S : Type 0} (used : S → ℕ → Type 0) where
  -- A range has been cleared, and all else translates as before.
  abbrev pub IsGone : ℕ → ℕ → (ℕ → Place) → Memory S → ℕ → ℕ → Words → Type 0
  IsGone size count place m top virt words' =
      IsShaped used place (record m { words = words' })
      × ((off n r : ℕ) → off < count * size → ¬ Walks words' top (virt + off) n r)
      × ((virt' n r : ℕ)
          → Outside size count virt virt'
          → Walks m.words top virt' n r
          → Walks words' top virt' n r)
      × ((virt' n r : ℕ)
          → Outside size count virt virt'
          → Walks words' top virt' n r
          → Walks m.words top virt' n r)

  pub unmap_pages_lem :
      (count : ℕ) (place : ℕ → Place) (m : Memory S) (type top virt : ℕ)
      → IsShaped used place m
      → place top ≡ table 4 0
      → virt % memory_type_page_size type ≡ 0
      → count * memory_type_page_size type ≤ 2 ^ 48
      → ((off : ℕ)
          → off < count * memory_type_page_size type
          → (r : ℕ) × Walks m.words top (virt + off) (memory_type_page_size type) r)
      → (words' : Words) × (unmap_pages top type count m.words virt ≡ some words')
        × IsGone (memory_type_page_size type) count place m top virt words'
  unfolding unmap_pages
  unmap_pages_lem zero place m type top virt shaped at av lv mapped = (
    m.words,
    refl,
    (
      shaped,
      (λ off n r lt. absurd (omega (arith, lt))),
      (λ virt' n r out walk. walk),
      λ virt' n r out walk. walk,
    ),
  )
  unmap_pages_lem (suc count) place m type top virt shaped at av lv mapped =
      let size : ℕ = memory_type_page_size type in
      let is_size : IsSize size = memory_type_page_size-IsSize type in
      let pos : 0 < size = size_pos size is_size in
      let head = mapped 0 (omega (arith, pos)) in
      let head_walk : Walks m.words top virt size head.0 =
        subst (λ v. Walks m.words top v size head.0) (omega arith) head.1 in
      let (words1, done1, first) =
        unmap_page_lem used place m shaped type top virt head.0 at head_walk in
      let m1 : Memory S = record m { words = words1 } in
      let later : (off : ℕ)
          → off < count * size
          → (r : ℕ) × Walks words1 top (virt + size + off) size r =
        λ off lt.
          let q = mapped (size + off) (omega (arith, lt)) in
          let apart =
            first_page size virt (size + off) count is_size av (omega (arith, lt))
              (λ e. omega (arith, e)) lv in
          (
            q.0,
            subst (λ v. Walks words1 top v size q.0) (omega arith)
                (first.2 (virt + (size + off)) size q.0 apart q.1),
          ) in
      let (words', done, rest) =
        unmap_pages_lem count place m1 type top (virt + size) first.0 at
          (next_aligned size virt is_size av) (omega (arith, lv)) later in
      let from_first : (virt' : ℕ)
          → Outside size (suc count) virt virt'
          → ¬ SameWay size virt virt' =
        λ virt' out. subst (λ x. ¬ SameWay size x virt') (ground arith) (out 0 (omega arith)) in
      (
        words',
        ap (λ o. o >>= λ w. unmap_pages top type count w (virt + size)) done1 ∙ done,
        (
          rest.0,
          (λ off n r lt walk. elim (Bool-cases (ltb off size)) [
            | inl near ↦
                first.1 (virt + off) n r (same_page size virt off is_size av (ground (arith, near)))
                  (rest.3 (virt + off) n r
                    (λ k hk.
                      later_page size virt off count k is_size av (ground (arith, near)) lv hk)
                    walk)
            | inr far ↦
                let past : size ≤ off = ground (arith, far) in
                rest.1 (off - size) n r (omega (arith, lt, past))
                  (subst (λ v. Walks words' top v n r) (omega (arith, past)) walk)
          ]),
          (λ virt' n r out walk.
              rest.2 virt' n r (Outside-rest size count virt virt' out)
                (first.2 virt' n r (from_first virt' out) walk)),
          (λ virt' n r out walk.
              first.3 virt' n r (from_first virt' out)
                (rest.3 virt' n r (Outside-rest size count virt virt' out) walk)),
        ),
      )
