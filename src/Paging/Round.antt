-- ===== src/Paging/Round.antt =====
-- The entry that maps a page, for each page size of `do_map_memory` in kernel/mm.cpp, and the translations after it is written.
use attos.Common.{ℕ, ◌+◌, ◌%◌, ◌^◌, ◌<◌, ◌≡◌, true, arith, subst}
use attos.Paging.Address.{page_size, is_present, is_pagesize, pdpe, pde, pte, page_flags}
use attos.Paging.Tables.{store, entry_at, Memory}
use attos.Paging.Shape.{Place, table, IsShaped}
use attos.Paging.Walk.{in_page, Walks}
use attos.Paging.Reach.{Above3, Above2, Above1, SameWay, leaf_1gb, leaf_2mb, leaf_4kb}
use attos.Paging.Changed.{Others, changed_1gb, changed_2mb, changed_4kb}

-- The entry of a page.
value_1gb :
    (type phys : ℕ)
    → phys % 2 ^ 30 ≡ 0
    → phys < 2 ^ 52
    → (is_present (phys + 2 ^ 7 + page_flags type) ≡ true)
      × (is_pagesize (phys + 2 ^ 7 + page_flags type) ≡ true)
      × ((virt : ℕ) → in_page (2 ^ 30) (phys + 2 ^ 7 + page_flags type) virt ≡ phys + virt % 2 ^ 30)
value_1gb type phys al lt = (ground arith, ground arith, λ virt. ground arith)

value_2mb :
    (type phys : ℕ)
    → phys % 2 ^ 21 ≡ 0
    → phys < 2 ^ 52
    → (is_present (phys + 2 ^ 7 + page_flags type) ≡ true)
      × (is_pagesize (phys + 2 ^ 7 + page_flags type) ≡ true)
      × ((virt : ℕ) → in_page (2 ^ 21) (phys + 2 ^ 7 + page_flags type) virt ≡ phys + virt % 2 ^ 21)
value_2mb type phys al lt = (ground arith, ground arith, λ virt. ground arith)

value_4kb :
    (type phys : ℕ)
    → phys % page_size ≡ 0
    → phys < 2 ^ 52
    → (is_present (phys + page_flags type) ≡ true)
      × ((virt : ℕ) → in_page page_size (phys + page_flags type) virt ≡ phys + virt % page_size)
value_4kb type phys al lt = (ground arith, λ virt. ground arith)

module _ {S : Type 0} (used : S → ℕ → Type 0) where
  -- What a round has done.
  abbrev pub IsMapped : ℕ → Memory S → ℕ → ℕ → ℕ → Memory S → (ℕ → Place) → Type 0
  IsMapped size m top virt phys m' place' =
      IsShaped used place' m'
      × (place' top ≡ table 4 0)
      × ((virt' : ℕ)
          → SameWay size virt virt'
          → Walks m'.words top virt' size (phys + virt' % size))
      × Others size m.words top virt m'.words

  pub IsMapped-1gb :
      (place : ℕ → Place) (m : Memory S) (type top virt phys p : ℕ)
      → IsShaped used place m
      → place top ≡ table 4 0
      → Above3 m.words top virt p
      → phys % (2 ^ 30) ≡ 0
      → phys < 2 ^ 52
      → IsMapped
          (2 ^ 30)
          m
          top
          virt
          phys
          (record m {
            words = store m.words (entry_at p (pdpe virt)) (phys + 2 ^ 7 + page_flags type);
          })
          place
  IsMapped-1gb place m type top virt phys p shaped at above al lt =
      let value : ℕ = phys + 2 ^ 7 + page_flags type in
      let v = value_1gb type phys al lt in
      let (shaped', others, back) =
        changed_1gb used place m top virt value p shaped at above (λ _. v.1) in
      (
        shaped',
        at,
        (λ virt' same.
            subst (Walks (store m.words (entry_at p (pdpe virt)) value) top virt' (2 ^ 30))
              (v.2 virt')
              (leaf_1gb used place m shaped top virt virt' value p at above v.0 v.1 same)),
        others,
      )

  pub IsMapped-2mb :
      (place : ℕ → Place) (m : Memory S) (type top virt phys p : ℕ)
      → IsShaped used place m
      → place top ≡ table 4 0
      → Above2 m.words top virt p
      → phys % (2 ^ 21) ≡ 0
      → phys < 2 ^ 52
      → IsMapped
          (2 ^ 21)
          m
          top
          virt
          phys
          (record m {
            words = store m.words (entry_at p (pde virt)) (phys + 2 ^ 7 + page_flags type);
          })
          place
  IsMapped-2mb place m type top virt phys p shaped at above al lt =
      let value : ℕ = phys + 2 ^ 7 + page_flags type in
      let v = value_2mb type phys al lt in
      let (shaped', others, back) =
        changed_2mb used place m top virt value p shaped at above (λ _. v.1) in
      (
        shaped',
        at,
        (λ virt' same.
            subst (Walks (store m.words (entry_at p (pde virt)) value) top virt' (2 ^ 21))
              (v.2 virt')
              (leaf_2mb used place m shaped top virt virt' value p at above v.0 v.1 same)),
        others,
      )

  pub IsMapped-4kb :
      (place : ℕ → Place) (m : Memory S) (type top virt phys p : ℕ)
      → IsShaped used place m
      → place top ≡ table 4 0
      → Above1 m.words top virt p
      → phys % page_size ≡ 0
      → phys < 2 ^ 52
      → IsMapped page_size m top virt phys
          (record m { words = store m.words (entry_at p (pte virt)) (phys + page_flags type) })
          place
  IsMapped-4kb place m type top virt phys p shaped at above al lt =
      let value : ℕ = phys + page_flags type in
      let v = value_4kb type phys al lt in
      let (shaped', others, back) = changed_4kb used place m top virt value p shaped at above in
      (
        shaped',
        at,
        (λ virt' same.
            subst (Walks (store m.words (entry_at p (pte virt)) value) top virt' page_size)
              (v.1 virt') (leaf_4kb used place m shaped top virt virt' value p at above v.0 same)),
        others,
      )
