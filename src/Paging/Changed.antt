-- ===== src/Paging/Changed.antt =====
-- Writes of the entry of a page, and the translations of other pages, in kernel/mm.cpp.
use attos.Common.{ℕ, ◌+◌, ◌*◌, ◌^◌, ◌<◌, ◌≡◌, ◌≢◌, refl, sym, ap, ◌∙◌, true, arith, ◌⊎◌, inl, inr}
use attos.Paging.Address.{page_size, is_present, is_pagesize, pml4e, pdpe, pde, pte}
use attos.Paging.Tables.{Words, store, entry_at, Memory}
use attos.Paging.Shape.{Place, table, IsShaped, Keeps}
use attos.Paging.Walk.{
  prefix_3, prefix_2, prefix_1, Walks, KeepsAt, Walks-keeps, place_1, place_2, place_3,
}
use attos.Paging.Leaf.{leaf_keeps, leaf_keeps_back, leaf-IsShaped}
use attos.Paging.Reach.{Above3, Above2, Above1, SameWay}

-- The translations outside the page of `virt` carry over.
abbrev pub Others : ℕ → Words → ℕ → ℕ → Words → Type 0
Others size words top virt words' =
    (virt' n r : ℕ)
    → ¬ SameWay size virt virt'
    → Walks words top virt' n r
    → Walks words' top virt' n r

module _ {S : Type 0} (used : S → ℕ → Type 0) where
  -- Entering a table keeps every translation.
  pub entered-Walks :
      (place : ℕ → Place) (m : Memory S) (words' : Words) (top virt size r : ℕ)
      → IsShaped used place m
      → place top ≡ table 4 0
      → Keeps place m.words words'
      → Walks m.words top virt size r
      → Walks words' top virt size r
  entered-Walks place m words' top virt size r shaped at keeps walk =
      Walks-keeps used place m shaped words' top virt size r at
        (record {
          way_4 = λ p h pr. keeps p 4 0 (pml4e virt) h (omega arith) pr;
          way_3 = λ p h pr. keeps p 3 (prefix_3 virt) (pdpe virt) h (omega arith) pr;
          way_2 = λ p h pr. keeps p 2 (prefix_2 virt) (pde virt) h (omega arith) pr;
          way_1 = λ p h pr. keeps p 1 (prefix_1 virt) (pte virt) h (omega arith) pr;
        })
        walk

  -- Any write of the entry of a page of level 3, on other pages.
  pub changed_1gb :
      (place : ℕ → Place) (m : Memory S) (top virt value p : ℕ)
      → IsShaped used place m
      → place top ≡ table 4 0
      → Above3 m.words top virt p
      → (is_present value ≡ true → is_pagesize value ≡ true)
      → IsShaped used place (record m { words = store m.words (entry_at p (pdpe virt)) value })
        × Others (2 ^ 30) m.words top virt (store m.words (entry_at p (pdpe virt)) value)
        × Others (2 ^ 30) (store m.words (entry_at p (pdpe virt)) value) top virt m.words
  changed_1gb place m top virt value p shaped at above kind =
      let here : place p ≡ table 3 (prefix_3 virt) =
        ap place (sym above.1) ∙ place_3 used place m shaped top virt at above.0 in
      let keeps : (level prefix j : ℕ)
          → j < 512
          → (3 ≢ level) ⊎ (prefix_3 virt * 512 + pdpe virt ≢ prefix * 512 + j)
          → KeepsAt place m.words (store m.words (entry_at p (pdpe virt)) value) level prefix j =
        λ level prefix j hj off.
          leaf_keeps used place m shaped p 3 (prefix_3 virt) (pdpe virt) value level prefix j here
            (omega arith) hj off in
      let back : (level prefix j : ℕ)
          → j < 512
          → (3 ≢ level) ⊎ (prefix_3 virt * 512 + pdpe virt ≢ prefix * 512 + j)
          → KeepsAt place (store m.words (entry_at p (pdpe virt)) value) m.words level prefix j =
        λ level prefix j hj off.
          leaf_keeps_back used place m shaped p 3 (prefix_3 virt) (pdpe virt) value level prefix j
            here (omega arith) hj off in
      let shaped' =
        leaf-IsShaped used place m shaped p 2 (prefix_3 virt) (pdpe virt) value here (omega arith)
          (omega arith) (inl kind) in
      (
        shaped',
        (λ virt' n r other walk.
            Walks-keeps used place m shaped (store m.words (entry_at p (pdpe virt)) value) top virt'
              n r at
              (record {
                way_4 = keeps 4 0 (pml4e virt') (omega arith) (inl (omega arith));
                way_3 =
                    keeps 3 (prefix_3 virt') (pdpe virt') (omega arith)
                      (inr (λ e. other (omega (arith, e))));
                way_2 = keeps 2 (prefix_2 virt') (pde virt') (omega arith) (inl (omega arith));
                way_1 = keeps 1 (prefix_1 virt') (pte virt') (omega arith) (inl (omega arith));
              })
              walk),
        (λ virt' n r other walk.
            Walks-keeps used place
              (record m { words = (store m.words (entry_at p (pdpe virt)) value) }) shaped' m.words
              top virt' n r at
              (record {
                way_4 = back 4 0 (pml4e virt') (omega arith) (inl (omega arith));
                way_3 =
                    back 3 (prefix_3 virt') (pdpe virt') (omega arith)
                      (inr (λ e. other (omega (arith, e))));
                way_2 = back 2 (prefix_2 virt') (pde virt') (omega arith) (inl (omega arith));
                way_1 = back 1 (prefix_1 virt') (pte virt') (omega arith) (inl (omega arith));
              })
              walk),
      )

  -- Any write of the entry of a page of level 2, on other pages.
  pub changed_2mb :
      (place : ℕ → Place) (m : Memory S) (top virt value p : ℕ)
      → IsShaped used place m
      → place top ≡ table 4 0
      → Above2 m.words top virt p
      → (is_present value ≡ true → is_pagesize value ≡ true)
      → IsShaped used place (record m { words = store m.words (entry_at p (pde virt)) value })
        × Others (2 ^ 21) m.words top virt (store m.words (entry_at p (pde virt)) value)
        × Others (2 ^ 21) (store m.words (entry_at p (pde virt)) value) top virt m.words
  changed_2mb place m top virt value p shaped at above kind =
      let here : place p ≡ table 2 (prefix_2 virt) =
        ap place (sym above.3) ∙ place_2 used place m shaped top virt at above.0 above.1 above.2 in
      let keeps : (level prefix j : ℕ)
          → j < 512
          → (2 ≢ level) ⊎ (prefix_2 virt * 512 + pde virt ≢ prefix * 512 + j)
          → KeepsAt place m.words (store m.words (entry_at p (pde virt)) value) level prefix j =
        λ level prefix j hj off.
          leaf_keeps used place m shaped p 2 (prefix_2 virt) (pde virt) value level prefix j here
            (omega arith) hj off in
      let back : (level prefix j : ℕ)
          → j < 512
          → (2 ≢ level) ⊎ (prefix_2 virt * 512 + pde virt ≢ prefix * 512 + j)
          → KeepsAt place (store m.words (entry_at p (pde virt)) value) m.words level prefix j =
        λ level prefix j hj off.
          leaf_keeps_back used place m shaped p 2 (prefix_2 virt) (pde virt) value level prefix j
            here (omega arith) hj off in
      let shaped' =
        leaf-IsShaped used place m shaped p 1 (prefix_2 virt) (pde virt) value here (omega arith)
          (omega arith) (inl kind) in
      (
        shaped',
        (λ virt' n r other walk.
            Walks-keeps used place m shaped (store m.words (entry_at p (pde virt)) value) top virt'
              n r at
              (record {
                way_4 = keeps 4 0 (pml4e virt') (omega arith) (inl (omega arith));
                way_3 = keeps 3 (prefix_3 virt') (pdpe virt') (omega arith) (inl (omega arith));
                way_2 =
                    keeps 2 (prefix_2 virt') (pde virt') (omega arith)
                      (inr (λ e. other (omega (arith, e))));
                way_1 = keeps 1 (prefix_1 virt') (pte virt') (omega arith) (inl (omega arith));
              })
              walk),
        (λ virt' n r other walk.
            Walks-keeps used place
              (record m { words = (store m.words (entry_at p (pde virt)) value) }) shaped' m.words
              top virt' n r at
              (record {
                way_4 = back 4 0 (pml4e virt') (omega arith) (inl (omega arith));
                way_3 = back 3 (prefix_3 virt') (pdpe virt') (omega arith) (inl (omega arith));
                way_2 =
                    back 2 (prefix_2 virt') (pde virt') (omega arith)
                      (inr (λ e. other (omega (arith, e))));
                way_1 = back 1 (prefix_1 virt') (pte virt') (omega arith) (inl (omega arith));
              })
              walk),
      )

  -- Any write of the entry of a page of level 1, on other pages.
  pub changed_4kb :
      (place : ℕ → Place) (m : Memory S) (top virt value p : ℕ)
      → IsShaped used place m
      → place top ≡ table 4 0
      → Above1 m.words top virt p
      → IsShaped used place (record m { words = store m.words (entry_at p (pte virt)) value })
        × Others page_size m.words top virt (store m.words (entry_at p (pte virt)) value)
        × Others page_size (store m.words (entry_at p (pte virt)) value) top virt m.words
  changed_4kb place m top virt value p shaped at above =
      let here : place p ≡ table 1 (prefix_1 virt) =
        ap place (sym above.5)
        ∙ place_1 used place m shaped top virt at above.0 above.1 above.2 above.3 above.4 in
      let keeps : (level prefix j : ℕ)
          → j < 512
          → (1 ≢ level) ⊎ (prefix_1 virt * 512 + pte virt ≢ prefix * 512 + j)
          → KeepsAt place m.words (store m.words (entry_at p (pte virt)) value) level prefix j =
        λ level prefix j hj off.
          leaf_keeps used place m shaped p 1 (prefix_1 virt) (pte virt) value level prefix j here
            (omega arith) hj off in
      let back : (level prefix j : ℕ)
          → j < 512
          → (1 ≢ level) ⊎ (prefix_1 virt * 512 + pte virt ≢ prefix * 512 + j)
          → KeepsAt place (store m.words (entry_at p (pte virt)) value) m.words level prefix j =
        λ level prefix j hj off.
          leaf_keeps_back used place m shaped p 1 (prefix_1 virt) (pte virt) value level prefix j
            here (omega arith) hj off in
      let shaped' =
        leaf-IsShaped used place m shaped p 0 (prefix_1 virt) (pte virt) value here (omega arith)
          (omega arith) (inr refl) in
      (
        shaped',
        (λ virt' n r other walk.
            Walks-keeps used place m shaped (store m.words (entry_at p (pte virt)) value) top virt'
              n r at
              (record {
                way_4 = keeps 4 0 (pml4e virt') (omega arith) (inl (omega arith));
                way_3 = keeps 3 (prefix_3 virt') (pdpe virt') (omega arith) (inl (omega arith));
                way_2 = keeps 2 (prefix_2 virt') (pde virt') (omega arith) (inl (omega arith));
                way_1 =
                    keeps 1 (prefix_1 virt') (pte virt') (omega arith)
                      (inr (λ e. other (omega (arith, e))));
              })
              walk),
        (λ virt' n r other walk.
            Walks-keeps used place
              (record m { words = (store m.words (entry_at p (pte virt)) value) }) shaped' m.words
              top virt' n r at
              (record {
                way_4 = back 4 0 (pml4e virt') (omega arith) (inl (omega arith));
                way_3 = back 3 (prefix_3 virt') (pdpe virt') (omega arith) (inl (omega arith));
                way_2 = back 2 (prefix_2 virt') (pde virt') (omega arith) (inl (omega arith));
                way_1 =
                    back 1 (prefix_1 virt') (pte virt') (omega arith)
                      (inr (λ e. other (omega (arith, e))));
              })
              walk),
      )
