-- ===== src/Paging/Descent.antt =====
-- The way down to the table of a page in `do_map_memory` of kernel/mm.cpp.
use attos.Common.{ℕ, ◌≡◌, sym, ap, ◌∙◌, some, arith}
use attos.Paging.Address.{is_present, is_pagesize, pml4e, pdpe, pde, table_flags}
use attos.Paging.Tables.{entry_at, table_entry, Memory, PageSource, alloc_if_not_present}
use attos.Paging.Shape.{Place, table, IsShaped, IsPageSource, Keeps}
use attos.Paging.Enter.{alloc_if_not_present_lem}
use attos.Paging.Walk.{prefix_3, prefix_2, entry_4, entry_3, entry_2, place_2, place_3}
use attos.Paging.Reach.{Above3, Above2, Above1}

module _ {S : Type 0} (source : PageSource S) (used : S → ℕ → Type 0)
    (sound : IsPageSource source used) where
  -- A table is found or entered on the way to a page.
  pub above_3 :
      (place : ℕ → Place) (m m' : Memory S) (type top virt t : ℕ)
      → IsShaped used place m
      → place top ≡ table 4 0
      → alloc_if_not_present source m (entry_at top (pml4e virt)) (table_flags type) ≡ some (t, m')
      → (place' : ℕ → Place) × IsShaped used place' m'
        × (place' top ≡ table 4 0)
        × Above3 m'.words top virt t
        × Keeps place m.words m'.words
  above_3 place m m' type top virt t shaped at e =
      let (place', (shaped', here, grows, keeps, pr, ps, found)) =
        alloc_if_not_present_lem source used sound place m m' top 2 0 (pml4e virt) t type shaped at
          (omega arith) e in
      (place', shaped', grows top 4 0 at, (pr, found), keeps)

  pub above_2 :
      (place : ℕ → Place) (m m' : Memory S) (type top virt p t : ℕ)
      → IsShaped used place m
      → place top ≡ table 4 0
      → Above3 m.words top virt p
      → alloc_if_not_present source m (entry_at p (pdpe virt)) (table_flags type) ≡ some (t, m')
      → (place' : ℕ → Place) × IsShaped used place' m'
        × (place' top ≡ table 4 0)
        × Above2 m'.words top virt t
        × Keeps place m.words m'.words
  above_2 place m m' type top virt p t shaped at above e =
      let at_p = ap place (sym above.1) ∙ place_3 used place m shaped top virt at above.0 in
      let (place', (shaped', here, grows, keeps, pr, ps, found)) =
        alloc_if_not_present_lem source used sound place m m' p 1 (prefix_3 virt) (pdpe virt) t type
          shaped at_p (omega arith) e in
      let s4 : entry_4 m'.words top virt ≡ entry_4 m.words top virt =
        keeps top 4 0 (pml4e virt) at (omega arith) above.0 in
      let s3 : entry_3 m'.words top virt ≡ m'.words (entry_at p (pdpe virt)) =
        ap (λ x. m'.words (entry_at x (pdpe virt))) (ap table_entry s4 ∙ above.1) in
      (
        place',
        shaped',
        grows top 4 0 at,
        (
          ap is_present s4 ∙ above.0,
          ap is_present s3 ∙ pr,
          ap is_pagesize s3 ∙ ps,
          ap table_entry s3 ∙ found,
        ),
        keeps,
      )

  pub above_1 :
      (place : ℕ → Place) (m m' : Memory S) (type top virt p t : ℕ)
      → IsShaped used place m
      → place top ≡ table 4 0
      → Above2 m.words top virt p
      → alloc_if_not_present source m (entry_at p (pde virt)) (table_flags type) ≡ some (t, m')
      → (place' : ℕ → Place) × IsShaped used place' m'
        × (place' top ≡ table 4 0)
        × Above1 m'.words top virt t
        × Keeps place m.words m'.words
  above_1 place m m' type top virt p t shaped at (h4, h3, b3, q) e =
      let at_p = ap place (sym q) ∙ place_2 used place m shaped top virt at h4 h3 b3 in
      let (place', (shaped', here, grows, keeps, pr, ps, found)) =
        alloc_if_not_present_lem source used sound place m m' p 0 (prefix_2 virt) (pde virt) t type
          shaped at_p (omega arith) e in
      let s4 : entry_4 m'.words top virt ≡ entry_4 m.words top virt =
        keeps top 4 0 (pml4e virt) at (omega arith) h4 in
      let s3 : entry_3 m'.words top virt ≡ entry_3 m.words top virt =
        ap (λ x. m'.words (entry_at (table_entry x) (pdpe virt))) s4
        ∙ keeps (table_entry (entry_4 m.words top virt)) 3 (prefix_3 virt) (pdpe virt)
            (place_3 used place m shaped top virt at h4) (omega arith) h3 in
      let s2 : entry_2 m'.words top virt ≡ m'.words (entry_at p (pde virt)) =
        ap (λ x. m'.words (entry_at x (pde virt))) (ap table_entry s3 ∙ q) in
      (
        place',
        shaped',
        grows top 4 0 at,
        (
          ap is_present s4 ∙ h4,
          ap is_present s3 ∙ h3,
          ap is_pagesize s3 ∙ b3,
          ap is_present s2 ∙ pr,
          ap is_pagesize s2 ∙ ps,
          ap table_entry s2 ∙ found,
        ),
        keeps,
      )
