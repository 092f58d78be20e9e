-- ===== src/Paging/Leaf.antt =====
-- The last write of a round of `do_map_memory` in kernel/mm.cpp: an entry that maps a page.
use attos.Common.{
  ℕ, suc, ◌+◌, ◌*◌, ◌<◌, ◌≡◌, ◌≢◌, sym, ap, ◌∙◌, ◌==◌, true, arith, Bool-cases, ◌⊎◌, inl, inr,
}
use attos.Paging.Address.{is_present, is_pagesize}
use attos.Paging.Tables.{store, entry_at, table_entry, Memory}
use attos.Paging.Shape.{Place, table, IsShaped, entry_at_apart}
use attos.Paging.Walk.{KeepsAt}

module _ {S : Type 0} (used : S → ℕ → Type 0) (place : ℕ → Place) (m : Memory S)
    (shaped : IsShaped used place m) where
  -- Entries at different places have different addresses.
  store_other :
      (p q l v i k w j value : ℕ)
      → place p ≡ table l v
      → place q ≡ table k w
      → i < 512
      → j < 512
      → (l ≢ k) ⊎ (v * 512 + i ≢ w * 512 + j)
      → store m.words (entry_at p i) value (entry_at q j) ≡ m.words (entry_at q j)
  store_other p q l v i k w j value hp hq hi hj off =
      elim (Bool-cases (entry_at q j == entry_at p i)) [
        | inl e ↦
            let ap' = shaped.on_page p l v hp in
            let aq = shaped.on_page q k w hq in
            let both = entry_at_apart q p j i aq.0 ap'.0 hj hi (ground (arith, e)) in
            let same : table k w ≡ table l v = sym hq ∙ ap place both.0 ∙ hp in
            absurd
              (elim off [ inl n ↦ ground (arith, same) | inr n ↦ ground (arith, same, both.1) ])
        | inr e ↦ ground (arith, e)
      ]

  -- Writing an entry that maps a page keeps the shape.
  pub leaf-IsShaped :
      (p l v i value : ℕ)
      → place p ≡ table (suc l) v
      → l < 3
      → i < 512
      → (is_present value ≡ true → is_pagesize value ≡ true) ⊎ (l ≡ 0)
      → IsShaped used place (record m { words = store m.words (entry_at p i) value })
  leaf-IsShaped p l v i value here low hi kind = record {
    in_use = shaped.in_use;
    on_page = shaped.on_page;
    child = λ q k w j h hj pr ps. elim (Bool-cases (entry_at q j == entry_at p i)) [
      | inl e ↦
          (let both =
              entry_at_apart q p j i (shaped.on_page q (suc (suc k)) w h).0
                (shaped.on_page p (suc l) v here).0 hj hi (ground (arith, e)) in
            let same : table (suc (suc k)) w ≡ table (suc l) v = sym h ∙ ap place both.0 ∙ here in
            absurd (elim kind [
              | inl big ↦
                  (let same_value : store m.words (entry_at p i) value (entry_at q j) ≡ value =
                      ground (arith, e) in
                    ground (
                      arith,
                      big (ap is_present (sym same_value) ∙ pr),
                      ap is_pagesize (sym same_value) ∙ ps,
                    ))
              | inr low_l ↦ ground (arith, same, low_l)
            ]))
      | inr e ↦
          (let same : store m.words (entry_at p i) value (entry_at q j) ≡ m.words (entry_at q j) =
              ground (arith, e) in
            ap (λ x. place (table_entry x)) same
            ∙ shaped.child q k w j h hj (ap is_present (sym same) ∙ pr)
                (ap is_pagesize (sym same) ∙ ps))
    ];
    top = λ q w j h hj pr.
        let same =
          store_other p q (suc l) v i 4 w j value here h hi hj (inl (omega (arith, low))) in
        ap is_pagesize same ∙ shaped.top q w j h hj (ap is_present (sym same) ∙ pr);
  }

  -- It keeps the way of every address for which it is not on the way.
  pub leaf_keeps :
      (p l v i value level prefix j : ℕ)
      → place p ≡ table l v
      → i < 512
      → j < 512
      → (l ≢ level) ⊎ (v * 512 + i ≢ prefix * 512 + j)
      → KeepsAt place m.words (store m.words (entry_at p i) value) level prefix j
  leaf_keeps p l v i value level prefix j here hi hj off =
      λ q h pr. store_other p q l v i level prefix j value here h hi hj off

  -- The same, from the words after the write to those before.
  pub leaf_keeps_back :
      (p l v i value level prefix j : ℕ)
      → place p ≡ table l v
      → i < 512
      → j < 512
      → (l ≢ level) ⊎ (v * 512 + i ≢ prefix * 512 + j)
      → KeepsAt place (store m.words (entry_at p i) value) m.words level prefix j
  leaf_keeps_back p l v i value level prefix j here hi hj off =
      λ q h pr. sym (store_other p q l v i level prefix j value here h hi hj off)
