-- ===== src/Paging/Fresh.antt =====
-- A fresh page that `alloc_table_entry` of kernel/mm.cpp enters as a table.
use attos.Common.{
  ℕ, suc, ◌+◌, ◌*◌, ◌%◌, ◌^◌, ◌<◌, ◌≡◌, ◌≢◌, sym, ap, ◌∙◌, ◌==◌, true, false, some, arith,
  Bool-cases, ◌⊎◌, inl, inr, subst,
}
use attos.Paging.Address.{page_size, is_present, is_pagesize, table_flags}
use attos.Paging.Tables.{Words, entry_at, table_entry, PageSource, Memory}
use attos.Paging.Shape.{
  Place, table, IsPageSource, IsShaped, entry_at_apart, place_with, table_flags_entry, entered,
  entered_other, entered_fresh,
}

module _ {S : Type 0} (source : PageSource S) (used : S → ℕ → Type 0)
    (sound : IsPageSource source used) where
  pub fresh_words :
      (place : ℕ → Place) (m : Memory S) (pages' : S) (p l v i t type : ℕ)
      → IsShaped used place m
      → place p ≡ table (suc (suc l)) v
      → i < 512
      → is_present (m.words (entry_at p i)) ≡ false
      → source.alloc_page m.pages ≡ some (t, pages')
      → (q k w j : ℕ) → place q ≡ table k w
      → j < 512
      → (q ≢ t)
        × (((q ≡ p) × (j ≡ i))
            ⊎ (entered m.words t (entry_at p i) (t + table_flags type) (entry_at q j)
                ≡ m.words (entry_at q j)))
  fresh_words place m pages' p l v i t type shaped at hi absent taken q k w j here hj =
      let apart : q ≢ t = λ same.
        sound.fresh m.pages pages' t taken (subst (used m.pages) same (shaped.in_use q k w here)) in
      let al = sound.aligned m.pages pages' t taken in
      let aq = shaped.on_page q k w here in
      let ap' = shaped.on_page p (suc (suc l)) v at in
      (
        apart,
        elim (Bool-cases (entry_at q j == entry_at p i)) [
          | inl e ↦ inl (entry_at_apart q p j i aq.0 ap'.0 hj hi (ground (arith, e)))
          | inr e ↦ inr (
              entered_other m.words t (entry_at p i) (t + table_flags type) q j al.0 aq.0 hj apart
                (ground (arith, e)))
        ],
      )

  pub place_with_other :
      (place : ℕ → Place) (t q : ℕ) (pl : Place) → q ≢ t → place_with place t pl q ≡ place q
  place_with_other place t q pl n = ground arith

  fresh_child :
      (place : ℕ → Place) (m : Memory S) (pages' : S) (p l v i t type : ℕ)
      → IsShaped used place m
      → place p ≡ table (suc (suc l)) v
      → i < 512
      → is_present (m.words (entry_at p i)) ≡ false
      → source.alloc_page m.pages ≡ some (t, pages')
      → (q k w j : ℕ) → place q ≡ table (suc (suc k)) w
      → j < 512
      → is_present (entered m.words t (entry_at p i) (t + table_flags type) (entry_at q j)) ≡ true
      → is_pagesize (entered m.words t (entry_at p i) (t + table_flags type) (entry_at q j)) ≡ false
      → place_with place t
          (table (suc l) (v * 512 + i))
          (table_entry (entered m.words t (entry_at p i) (t + table_flags type) (entry_at q j)))
        ≡ table (suc k) (w * 512 + j)
  fresh_child place m pages' p l v i t type shaped at hi absent taken q k w j here hj pr ps =
      let al = sound.aligned m.pages pages' t taken in
      let words' : Words = entered m.words t (entry_at p i) (t + table_flags type) in
      let pl : Place = table (suc l) (v * 512 + i) in
      elim (fresh_words place m pages' p l v i t type shaped at hi absent taken q (suc (suc k)) w j
        here hj).1 [
          | inl (qp, ji) ↦
              let value : words' (entry_at q j) ≡ t + table_flags type = ground (arith, qp, ji) in
              let entry : table_entry (words' (entry_at q j)) ≡ t =
                ap table_entry value ∙ (table_flags_entry type t al.0 al.1).2 in
              let same : table (suc (suc k)) w ≡ table (suc (suc l)) v =
                sym here ∙ ap place qp ∙ at in
              ap (place_with place t pl) entry ∙ ground (arith, same, ji)
          | inr keeps ↦
              let old =
                shaped.child q k w j here hj (subst (λ x. is_present x ≡ true) keeps pr)
                  (subst (λ x. is_pagesize x ≡ false) keeps ps) in
              let entry : ℕ = table_entry (m.words (entry_at q j)) in
              let apart : entry ≢ t = λ same.
                sound.fresh m.pages pages' t taken
                  (subst (used m.pages) same (shaped.in_use entry (suc k) (w * 512 + j) old)) in
              ap (λ x. place_with place t pl (table_entry x)) keeps
              ∙ place_with_other place t entry pl apart
              ∙ old
        ]

  -- The tables after a fresh page has been entered.
  pub fresh-IsShaped :
      (place : ℕ → Place) (m : Memory S) (pages' : S) (p l v i t type : ℕ)
      → IsShaped used place m
      → place p ≡ table (suc (suc l)) v
      → i < 512
      → is_present (m.words (entry_at p i)) ≡ false
      → source.alloc_page m.pages ≡ some (t, pages')
      → IsShaped used (place_with place t (table (suc l) (v * 512 + i))) (record {
        pages = pages';
        words = entered m.words t (entry_at p i) (t + table_flags type);
      })
  fresh-IsShaped place m pages' p l v i t type shaped at hi absent taken =
      let al = sound.aligned m.pages pages' t taken in
      let ap' = shaped.on_page p (suc (suc l)) v at in
      let words' : Words = entered m.words t (entry_at p i) (t + table_flags type) in
      let place' : ℕ → Place = place_with place t (table (suc l) (v * 512 + i)) in
      let written = table_flags_entry type t al.0 al.1 in
      let parent_apart : p ≢ t = λ same.
        sound.fresh m.pages pages' t taken
          (subst (used m.pages) same (shaped.in_use p (suc (suc l)) v at)) in
      let stay = fresh_words place m pages' p l v i t type shaped at hi absent taken in
      record {
        in_use = λ q k w h. elim (Bool-cases (q == t)) [
          | inl e ↦
              (let same : t ≡ q = ground arith in
                subst (used pages') same (sound.taken m.pages pages' t taken))
          | inr e ↦ sound.keeps m.pages pages' t q taken (shaped.in_use q k w (rw e at h))
        ];
        on_page = λ q k w h. elim (Bool-cases (q == t)) [
          | inl e ↦
              (let same : t ≡ q = ground arith in
                subst (λ x. (x % page_size ≡ 0) × (x < 2 ^ 52)) same al)
          | inr e ↦ shaped.on_page q k w (rw e at h)
        ];
        child = λ q k w j h hj pr ps. elim (Bool-cases (q == t)) [
          | inl e ↦
              (let same : q ≡ t = ground (arith, e) in
                let no =
                  entered_fresh m.words t p i (t + table_flags type) j al.0 ap'.0 hi hj
                    parent_apart in
                let yes : is_present (words' (entry_at t j)) ≡ true =
                  subst (λ x. is_present (words' (entry_at x j)) ≡ true) same pr in
                absurd (ground (arith, no, yes)))
          | inr e ↦
              fresh_child place m pages' p l v i t type shaped at hi absent taken q k w j
                (rw e at h) hj pr ps
        ];
        top = λ q w j h hj pr. elim (Bool-cases (q == t)) [
          | inl e ↦
              (let same : q ≡ t = ground (arith, e) in
                let no =
                  entered_fresh m.words t p i (t + table_flags type) j al.0 ap'.0 hi hj
                    parent_apart in
                let yes : is_present (words' (entry_at t j)) ≡ true =
                  subst (λ x. is_present (words' (entry_at x j)) ≡ true) same pr in
                absurd (ground (arith, no, yes)))
          | inr e ↦ elim (stay q 4 w j (rw e at h) hj).1 [
            | inl (qp, ji) ↦
                (let value : words' (entry_at q j) ≡ t + table_flags type =
                    ground (arith, qp, ji) in
                  ap is_pagesize value ∙ written.1)
            | inr keeps ↦
                ap is_pagesize keeps
                ∙ shaped.top q w j (rw e at h) hj (subst (λ x. is_present x ≡ true) keeps pr)
          ]
        ];
      }
