-- ===== src/Paging/Unmap.antt =====
-- A round of the loop of `do_unmap_memory` in kernel/mm.cpp.
use attos.Common.{ℕ, ◌^◌, ◌≡◌, refl, ap, ◌∙◌, true, false, some, arith, Bool-cases, inl, inr, subst}
use attos.Paging.Address.{
  page_size, is_present, is_pagesize, pdpe, pde, pte, is_1gb, is_2mb, memory_type_page_size,
}
use attos.Paging.Tables.{
  Words, store, entry_at, table_entry, Memory, unmap_page, present_table_entry,
}
use attos.Paging.Shape.{Place, table, IsShaped}
use attos.Paging.Walk.{entry_4, entry_3, entry_2, entry_1, at_3, at_2, at_1, Walks}
use attos.Paging.Reach.{Above3, Above2, Above1, SameWay, entries_3, entries_2, entries_1}
use attos.Paging.Changed.{Others, changed_1gb, changed_2mb, changed_4kb}

Above3-of :
    (words : Words) (top virt n r : ℕ)
    → Walks words top virt n r
    → n ≡ 2 ^ 30
    → Above3 words top virt (table_entry (entry_4 words top virt))
Above3-of words top virt _ _ (at_3 h4 h3 b3) e = (h4, refl)
Above3-of words top virt _ _ (at_2 h4 h3 b3 h2 b2) e = absurd (omega (arith, e))
Above3-of words top virt _ _ (at_1 h4 h3 b3 h2 b2 h1) e = absurd (omega (arith, e))

Above2-of :
    (words : Words) (top virt n r : ℕ)
    → Walks words top virt n r
    → n ≡ 2 ^ 21
    → Above2 words top virt (table_entry (entry_3 words top virt))
Above2-of words top virt _ _ (at_3 h4 h3 b3) e = absurd (omega (arith, e))
Above2-of words top virt _ _ (at_2 h4 h3 b3 h2 b2) e = (h4, h3, b3, refl)
Above2-of words top virt _ _ (at_1 h4 h3 b3 h2 b2 h1) e = absurd (omega (arith, e))

Above1-of :
    (words : Words) (top virt n r : ℕ)
    → Walks words top virt n r
    → n ≡ page_size
    → Above1 words top virt (table_entry (entry_2 words top virt))
Above1-of words top virt _ _ (at_3 h4 h3 b3) e = absurd (omega (arith, e))
Above1-of words top virt _ _ (at_2 h4 h3 b3 h2 b2) e = absurd (omega (arith, e))
Above1-of words top virt _ _ (at_1 h4 h3 b3 h2 b2 h1) e = (h4, h3, b3, h2, b2, refl)

-- No walk where an entry on the way is absent.
no_walk_3 :
    (words : Words) (top virt n r : ℕ)
    → Walks words top virt n r
    → ¬ (is_present (entry_3 words top virt) ≡ false)
no_walk_3 words top virt _ _ (at_3 h4 h3 b3) gone = ground (arith, h3, gone)
no_walk_3 words top virt _ _ (at_2 h4 h3 b3 h2 b2) gone = ground (arith, h3, gone)
no_walk_3 words top virt _ _ (at_1 h4 h3 b3 h2 b2 h1) gone = ground (arith, h3, gone)

no_walk_2 :
    (words : Words) (top virt n r : ℕ)
    → Walks words top virt n r
    → is_pagesize (entry_3 words top virt) ≡ false
    → ¬ (is_present (entry_2 words top virt) ≡ false)
no_walk_2 words top virt _ _ (at_3 h4 h3 b3) small gone = ground (arith, b3, small)
no_walk_2 words top virt _ _ (at_2 h4 h3 b3 h2 b2) small gone = ground (arith, h2, gone)
no_walk_2 words top virt _ _ (at_1 h4 h3 b3 h2 b2 h1) small gone = ground (arith, h2, gone)

no_walk_1 :
    (words : Words) (top virt n r : ℕ)
    → Walks words top virt n r
    → is_pagesize (entry_3 words top virt) ≡ false
    → is_pagesize (entry_2 words top virt) ≡ false
    → ¬ (is_present (entry_1 words top virt) ≡ false)
no_walk_1 words top virt _ _ (at_3 h4 h3 b3) small least gone = ground (arith, b3, small)
no_walk_1 words top virt _ _ (at_2 h4 h3 b3 h2 b2) small least gone = ground (arith, b2, least)
no_walk_1 words top virt _ _ (at_1 h4 h3 b3 h2 b2 h1) small least gone = ground (arith, h1, gone)

unmap_page_1gb :
    (type top virt : ℕ) (words : Words)
    → is_1gb type ≡ true
    → is_present (entry_4 words top virt) ≡ true
    → unmap_page top type words virt
      ≡ some (store words (entry_at (table_entry (entry_4 words top virt)) (pdpe virt)) 0)
unfolding unmap_page present_table_entry
unmap_page_1gb type top virt words large h4 = ground (arith, h4, large)

unmap_page_2mb :
    (type top virt : ℕ) (words : Words)
    → is_1gb type ≡ false
    → is_2mb type ≡ true
    → is_present (entry_4 words top virt) ≡ true
    → is_present (entry_3 words top virt) ≡ true
    → unmap_page top type words virt
      ≡ some (store words (entry_at (table_entry (entry_3 words top virt)) (pde virt)) 0)
unfolding unmap_page present_table_entry
unmap_page_2mb type top virt words small middle h4 h3 = ground (arith, h4, small, h3, middle)

unmap_page_4kb :
    (type top virt : ℕ) (words : Words)
    → is_1gb type ≡ false
    → is_2mb type ≡ false
    → is_present (entry_4 words top virt) ≡ true
    → is_present (entry_3 words top virt) ≡ true
    → is_present (entry_2 words top virt) ≡ true
    → unmap_page top type words virt
      ≡ some (store words (entry_at (table_entry (entry_2 words top virt)) (pte virt)) 0)
unfolding unmap_page present_table_entry
unmap_page_4kb type top virt words small least h4 h3 h2 = ground (arith, h4, small, h3, least, h2)

module _ {S : Type 0} (used : S → ℕ → Type 0) (place : ℕ → Place) (m : Memory S)
    (shaped : IsShaped used place m) where
  -- What a round has done: the page of `virt` leads nowhere, and other pages are where they were.
  abbrev pub IsCleared : ℕ → ℕ → ℕ → Words → Type 0
  IsCleared size top virt words' =
      IsShaped used place (record m { words = words' })
      × ((virt' n r : ℕ) → SameWay size virt virt' → ¬ Walks words' top virt' n r)
      × Others size m.words top virt words'
      × Others size words' top virt m.words

  IsCleared-1gb :
      (top virt p : ℕ)
      → place top ≡ table 4 0
      → Above3 m.words top virt p
      → IsCleared (2 ^ 30) top virt (store m.words (entry_at p (pdpe virt)) 0)
  IsCleared-1gb top virt p at above =
      let (shaped', others, back) =
        changed_1gb used place m top virt 0 p shaped at above (λ e. absurd (ground (arith, e))) in
      (
        shaped',
        (λ virt' n r same walk.
            let (s4, s3) = entries_3 used place m shaped top virt virt' 0 p at above same in
            no_walk_3 (store m.words (entry_at p (pdpe virt)) 0) top virt' n r walk
              (ap is_present s3 ∙ refl)),
        others,
        back,
      )

  IsCleared-2mb :
      (top virt p : ℕ)
      → place top ≡ table 4 0
      → Above2 m.words top virt p
      → IsCleared (2 ^ 21) top virt (store m.words (entry_at p (pde virt)) 0)
  IsCleared-2mb top virt p at above =
      let (shaped', others, back) =
        changed_2mb used place m top virt 0 p shaped at above (λ e. absurd (ground (arith, e))) in
      (
        shaped',
        (λ virt' n r same walk.
            let (s4, s3, s2) = entries_2 used place m shaped top virt virt' 0 p at above same in
            no_walk_2 (store m.words (entry_at p (pde virt)) 0) top virt' n r walk
              (ap is_pagesize s3 ∙ above.2) (ap is_present s2 ∙ refl)),
        others,
        back,
      )

  IsCleared-4kb :
      (top virt p : ℕ)
      → place top ≡ table 4 0
      → Above1 m.words top virt p
      → IsCleared page_size top virt (store m.words (entry_at p (pte virt)) 0)
  IsCleared-4kb top virt p at above =
      let (shaped', others, back) = changed_4kb used place m top virt 0 p shaped at above in
      (
        shaped',
        (λ virt' n r same walk.
            let (s4, s3, s2, s1) = entries_1 used place m shaped top virt virt' 0 p at above same in
            no_walk_1 (store m.words (entry_at p (pte virt)) 0) top virt' n r walk
              (ap is_pagesize s3 ∙ above.2) (ap is_pagesize s2 ∙ above.4)
              (ap is_present s1 ∙ refl)),
        others,
        back,
      )

  -- A page that is mapped with the size of its type is found and cleared.
  pub unmap_page_lem :
      (type top virt r : ℕ)
      → place top ≡ table 4 0
      → Walks m.words top virt (memory_type_page_size type) r
      → (words' : Words) × (unmap_page top type m.words virt ≡ some words')
        × IsCleared (memory_type_page_size type) top virt words'
  unmap_page_lem type top virt r at walk =
      let size : ℕ = memory_type_page_size type in
      let cleared : (n : ℕ)
          → n ≡ size
          → (words' : Words) → IsCleared n top virt words'
          → IsCleared size top virt words' =
        λ n e words'. subst (λ x. IsCleared x top virt words') e in
      elim (Bool-cases (is_1gb type)) [
        | inl large ↦
            let above = Above3-of m.words top virt size r walk (ground arith) in
            (
              _,
              unmap_page_1gb type top virt m.words large above.0,
              cleared (2 ^ 30) (ground arith) _ (IsCleared-1gb top virt _ at above),
            )
        | inr small ↦ elim (Bool-cases (is_2mb type)) [
          | inl middle ↦
              let above = Above2-of m.words top virt size r walk (ground arith) in
              (
                _,
                unmap_page_2mb type top virt m.words small middle above.0 above.1,
                cleared (2 ^ 21) (ground arith) _ (IsCleared-2mb top virt _ at above),
              )
          | inr least ↦
              let above = Above1-of m.words top virt size r walk (ground arith) in
              (
                _,
                unmap_page_4kb type top virt m.words small least above.0 above.1 above.3,
                cleared page_size (ground arith) _ (IsCleared-4kb top virt _ at above),
              )
        ]
      ]
