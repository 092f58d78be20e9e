-- ===== src/Paging/Reach.antt =====
-- Walks to a page once its entry is written, for the three page sizes of `do_map_memory` in kernel/mm.cpp.
use attos.Common.{ℕ, ◌/◌, ◌%◌, ◌^◌, ◌≡◌, sym, ap, ◌∙◌, true, false, arith, inl, subst}
use attos.Paging.Address.{page_size, is_present, is_pagesize, pml4e, pdpe, pde, pte}
use attos.Paging.Tables.{Words, store, entry_at, table_entry, Memory}
use attos.Paging.Shape.{Place, table, IsShaped}
use attos.Paging.Walk.{
  prefix_3, prefix_2, prefix_1, in_page, entry_4, entry_3, entry_2, entry_1, at_3, at_2, at_1,
  Walks, KeepsAt, place_3, place_2, place_1, keeps_3, keeps_2,
}
use attos.Paging.Leaf.{leaf_keeps}

-- The entries on the way to a page of each size, before its own.
abbrev pub Above3 : Words → ℕ → ℕ → ℕ → Type 0
Above3 words top virt t =
    (is_present (entry_4 words top virt) ≡ true) × (table_entry (entry_4 words top virt) ≡ t)

abbrev pub Above2 : Words → ℕ → ℕ → ℕ → Type 0
Above2 words top virt t =
    (is_present (entry_4 words top virt) ≡ true)
    × (is_present (entry_3 words top virt) ≡ true)
    × (is_pagesize (entry_3 words top virt) ≡ false)
    × (table_entry (entry_3 words top virt) ≡ t)

abbrev pub Above1 : Words → ℕ → ℕ → ℕ → Type 0
Above1 words top virt t =
    (is_present (entry_4 words top virt) ≡ true)
    × (is_present (entry_3 words top virt) ≡ true)
    × (is_pagesize (entry_3 words top virt) ≡ false)
    × (is_present (entry_2 words top virt) ≡ true)
    × (is_pagesize (entry_2 words top virt) ≡ false)
    × (table_entry (entry_2 words top virt) ≡ t)

-- The address of a page and the address of a byte in it go the same way.
abbrev pub SameWay : ℕ → ℕ → ℕ → Type 0
SameWay size virt virt' = virt / size % (2 ^ 48 / size) ≡ virt' / size % (2 ^ 48 / size)

pub parts_3 :
    (virt virt' : ℕ)
    → SameWay (2 ^ 30) virt virt'
    → (pml4e virt ≡ pml4e virt') × (pdpe virt ≡ pdpe virt')
parts_3 virt virt' same = (omega (arith, same), omega (arith, same))

pub parts_2 :
    (virt virt' : ℕ)
    → SameWay (2 ^ 21) virt virt'
    → (pml4e virt ≡ pml4e virt') × (pdpe virt ≡ pdpe virt') × (pde virt ≡ pde virt')
parts_2 virt virt' same = (omega (arith, same), omega (arith, same), omega (arith, same))

pub parts_1 :
    (virt virt' : ℕ)
    → SameWay page_size virt virt'
    → (pml4e virt ≡ pml4e virt')
      × (pdpe virt ≡ pdpe virt')
      × (pde virt ≡ pde virt')
      × (pte virt ≡ pte virt')
parts_1 virt virt' same =
    (omega (arith, same), omega (arith, same), omega (arith, same), omega (arith, same))

written : (words : Words) (at value : ℕ) → store words at value at ≡ value
written words at value = ground arith

module _ {S : Type 0} (used : S → ℕ → Type 0) (place : ℕ → Place) (m : Memory S)
    (shaped : IsShaped used place m) where
  -- The entries on the way, after an entry of level 3 has been written.
  pub entries_3 :
      (top virt virt' value p : ℕ)
      → place top ≡ table 4 0
      → Above3 m.words top virt p
      → SameWay (2 ^ 30) virt virt'
      → (entry_4 (store m.words (entry_at p (pdpe virt)) value) top virt'
          ≡ entry_4 m.words top virt)
        × (entry_3 (store m.words (entry_at p (pdpe virt)) value) top virt' ≡ value)
  entries_3 top virt virt' value p at above same =
      let words' : Words = store m.words (entry_at p (pdpe virt)) value in
      let parts = parts_3 virt virt' same in
      let here = ap place (sym above.1) ∙ place_3 used place m shaped top virt at above.0 in
      let s4 : entry_4 words' top virt' ≡ entry_4 m.words top virt =
        ap (λ i. words' (entry_at top i)) (sym parts.0)
        ∙ leaf_keeps used place m shaped p 3 (prefix_3 virt) (pdpe virt) value 4 0 (pml4e virt) here
            (omega arith) (omega arith) (inl (omega arith)) top at above.0 in
      let s3 : entry_3 words' top virt' ≡ value =
        ap (λ x. words' (entry_at (table_entry x) (pdpe virt'))) s4
        ∙ ap (λ x. words' (entry_at x (pdpe virt'))) above.1
        ∙ ap (λ i. words' (entry_at p i)) (sym parts.1)
        ∙ written m.words (entry_at p (pdpe virt)) value in
      (s4, s3)

  -- The way after a page of 1 GiB has been entered.
  pub leaf_1gb :
      (top virt virt' value p : ℕ)
      → place top ≡ table 4 0
      → Above3 m.words top virt p
      → is_present value ≡ true
      → is_pagesize value ≡ true
      → SameWay (2 ^ 30) virt virt'
      → Walks
          (store m.words (entry_at p (pdpe virt)) value)
          top
          virt'
          (2 ^ 30)
          (in_page (2 ^ 30) value virt')
  leaf_1gb top virt virt' value p at above pr ps same =
      let words' : Words = store m.words (entry_at p (pdpe virt)) value in
      let (s4, s3) = entries_3 top virt virt' value p at above same in
      subst (Walks words' top virt' (2 ^ 30)) (ap (λ x. in_page (2 ^ 30) x virt') s3)
        (at_3 (ap is_present s4 ∙ above.0) (ap is_present s3 ∙ pr) (ap is_pagesize s3 ∙ ps))

  -- The entries on the way, after an entry of level 2 has been written.
  pub entries_2 :
      (top virt virt' value p : ℕ)
      → place top ≡ table 4 0
      → Above2 m.words top virt p
      → SameWay (2 ^ 21) virt virt'
      → (entry_4 (store m.words (entry_at p (pde virt)) value) top virt' ≡ entry_4 m.words top virt)
        × (entry_3 (store m.words (entry_at p (pde virt)) value) top virt'
            ≡ entry_3 m.words top virt)
        × (entry_2 (store m.words (entry_at p (pde virt)) value) top virt' ≡ value)
  entries_2 top virt virt' value p at above same =
      let words' : Words = store m.words (entry_at p (pde virt)) value in
      let parts = parts_2 virt virt' same in
      let (h4, h3, b3, found) = above in
      let here = ap place (sym found) ∙ place_2 used place m shaped top virt at h4 h3 b3 in
      let k4 : KeepsAt place m.words words' 4 0 (pml4e virt) =
        leaf_keeps used place m shaped p 2 (prefix_2 virt) (pde virt) value 4 0 (pml4e virt) here
          (omega arith) (omega arith) (inl (omega arith)) in
      let k3 : KeepsAt place m.words words' 3 (prefix_3 virt) (pdpe virt) =
        leaf_keeps used place m shaped p 2 (prefix_2 virt) (pde virt) value 3 (prefix_3 virt)
          (pdpe virt) here (omega arith) (omega arith) (inl (omega arith)) in
      let s4 : entry_4 words' top virt' ≡ entry_4 m.words top virt =
        ap (λ i. words' (entry_at top i)) (sym parts.0) ∙ k4 top at h4 in
      let s3 : entry_3 words' top virt' ≡ entry_3 m.words top virt =
        ap (λ i. words' (entry_at (table_entry (words' (entry_at top i))) (pdpe virt')))
          (sym parts.0)
        ∙ ap (λ i. words' (entry_at (table_entry (words' (entry_at top (pml4e virt)))) i))
            (sym parts.1)
        ∙ keeps_3 used place m shaped words' top virt at k4 k3 h4 h3 in
      let s2 : entry_2 words' top virt' ≡ value =
        ap (λ x. words' (entry_at (table_entry x) (pde virt'))) s3
        ∙ ap (λ x. words' (entry_at x (pde virt'))) found
        ∙ ap (λ i. words' (entry_at p i)) (sym parts.2)
        ∙ written m.words (entry_at p (pde virt)) value in
      (s4, s3, s2)

  -- The way after a page of 2 MiB has been entered.
  pub leaf_2mb :
      (top virt virt' value p : ℕ)
      → place top ≡ table 4 0
      → Above2 m.words top virt p
      → is_present value ≡ true
      → is_pagesize value ≡ true
      → SameWay (2 ^ 21) virt virt'
      → Walks
          (store m.words (entry_at p (pde virt)) value)
          top
          virt'
          (2 ^ 21)
          (in_page (2 ^ 21) value virt')
  leaf_2mb top virt virt' value p at above pr ps same =
      let words' : Words = store m.words (entry_at p (pde virt)) value in
      let (h4, h3, b3, found) = above in
      let (s4, s3, s2) = entries_2 top virt virt' value p at above same in
      subst (Walks words' top virt' (2 ^ 21)) (ap (λ x. in_page (2 ^ 21) x virt') s2) (
        at_2 (ap is_present s4 ∙ h4) (ap is_present s3 ∙ h3) (ap is_pagesize s3 ∙ b3)
          (ap is_present s2 ∙ pr) (ap is_pagesize s2 ∙ ps))

  -- The entries on the way, after an entry of level 1 has been written.
  pub entries_1 :
      (top virt virt' value p : ℕ)
      → place top ≡ table 4 0
      → Above1 m.words top virt p
      → SameWay page_size virt virt'
      → (entry_4 (store m.words (entry_at p (pte virt)) value) top virt' ≡ entry_4 m.words top virt)
        × (entry_3 (store m.words (entry_at p (pte virt)) value) top virt'
            ≡ entry_3 m.words top virt)
        × (entry_2 (store m.words (entry_at p (pte virt)) value) top virt'
            ≡ entry_2 m.words top virt)
        × (entry_1 (store m.words (entry_at p (pte virt)) value) top virt' ≡ value)
  entries_1 top virt virt' value p at above same =
      let words' : Words = store m.words (entry_at p (pte virt)) value in
      let parts = parts_1 virt virt' same in
      let (h4, h3, b3, h2, b2, found) = above in
      let here = ap place (sym found) ∙ place_1 used place m shaped top virt at h4 h3 b3 h2 b2 in
      let k4 : KeepsAt place m.words words' 4 0 (pml4e virt) =
        leaf_keeps used place m shaped p 1 (prefix_1 virt) (pte virt) value 4 0 (pml4e virt) here
          (omega arith) (omega arith) (inl (omega arith)) in
      let k3 : KeepsAt place m.words words' 3 (prefix_3 virt) (pdpe virt) =
        leaf_keeps used place m shaped p 1 (prefix_1 virt) (pte virt) value 3 (prefix_3 virt)
          (pdpe virt) here (omega arith) (omega arith) (inl (omega arith)) in
      let k2 : KeepsAt place m.words words' 2 (prefix_2 virt) (pde virt) =
        leaf_keeps used place m shaped p 1 (prefix_1 virt) (pte virt) value 2 (prefix_2 virt)
          (pde virt) here (omega arith) (omega arith) (inl (omega arith)) in
      let s4 : entry_4 words' top virt' ≡ entry_4 m.words top virt =
        ap (λ i. words' (entry_at top i)) (sym parts.0) ∙ k4 top at h4 in
      let s3 : entry_3 words' top virt' ≡ entry_3 m.words top virt =
        ap (λ x. words' (entry_at (table_entry x) (pdpe virt'))) s4
        ∙ ap (λ x. words' (entry_at (table_entry x) (pdpe virt'))) (sym (k4 top at h4))
        ∙ ap (λ i. words' (entry_at (table_entry (words' (entry_at top (pml4e virt)))) i))
            (sym parts.1)
        ∙ keeps_3 used place m shaped words' top virt at k4 k3 h4 h3 in
      let s2 : entry_2 words' top virt' ≡ entry_2 m.words top virt =
        ap (λ x. words' (entry_at (table_entry x) (pde virt'))) s3
        ∙ ap (λ x. words' (entry_at (table_entry x) (pde virt')))
            (sym (keeps_3 used place m shaped words' top virt at k4 k3 h4 h3))
        ∙ ap (λ i. words' (entry_at (table_entry (entry_3 words' top virt)) i)) (sym parts.2)
        ∙ keeps_2 used place m shaped words' top virt at k4 k3 k2 h4 h3 b3 h2 in
      let s1 : entry_1 words' top virt' ≡ value =
        ap (λ x. words' (entry_at (table_entry x) (pte virt'))) s2
        ∙ ap (λ x. words' (entry_at x (pte virt'))) found
        ∙ ap (λ i. words' (entry_at p i)) (sym parts.3)
        ∙ written m.words (entry_at p (pte virt)) value in
      (s4, s3, s2, s1)

  -- The way after a page of 4 KiB has been entered.
  pub leaf_4kb :
      (top virt virt' value p : ℕ)
      → place top ≡ table 4 0
      → Above1 m.words top virt p
      → is_present value ≡ true
      → SameWay page_size virt virt'
      → Walks
          (store m.words (entry_at p (pte virt)) value)
          top
          virt'
          page_size
          (in_page page_size value virt')
  leaf_4kb top virt virt' value p at above pr same =
      let words' : Words = store m.words (entry_at p (pte virt)) value in
      let (h4, h3, b3, h2, b2, found) = above in
      let (s4, s3, s2, s1) = entries_1 top virt virt' value p at above same in
      subst (Walks words' top virt' page_size) (ap (λ x. in_page page_size x virt') s1) (
        at_1 (ap is_present s4 ∙ h4) (ap is_present s3 ∙ h3) (ap is_pagesize s3 ∙ b3)
          (ap is_present s2 ∙ h2) (ap is_pagesize s2 ∙ b2) (ap is_present s1 ∙ pr))
