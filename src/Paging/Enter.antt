-- ===== src/Paging/Enter.antt =====
-- `alloc_if_not_present` of kernel/mm.cpp on tables that have their shape.
use attos.Common.{
  ℕ, suc, ◌+◌, ◌*◌, ◌<◌, ◌≡◌, refl, ap, ◌∙◌, ◌==◌, true, false, some, ◌>>◌, require, arith,
  Bool-cases, inl, inr, bind-some, require-some, subst,
}
use attos.Paging.Address.{is_present, is_pagesize, table_flags, check_bits}
use attos.Paging.Tables.{
  Words, entry_at, table_entry, PageSource, Memory, alloc_table_entry, alloc_if_not_present,
}
use attos.Paging.Shape.{
  Place, table, IsPageSource, IsShaped, Grows, Keeps, place_with, table_flags_entry, no_pagesize,
  entered,
}
use attos.Paging.Fresh.{fresh_words, place_with_other, fresh-IsShaped}

module _ {S : Type 0} (source : PageSource S) (used : S → ℕ → Type 0)
    (sound : IsPageSource source used) where
  -- What a table that has been found or entered is.
  abbrev pub IsEntered :
      (ℕ → Place) → Memory S → ℕ → ℕ → ℕ → ℕ → ℕ → Memory S → (ℕ → Place) → Type 0
  IsEntered place m p l v i t m' place' =
      IsShaped used place' m'
      × (place' t ≡ table (suc l) (v * 512 + i))
      × Grows place place'
      × Keeps place m.words m'.words
      × (is_present (m'.words (entry_at p i)) ≡ true)
      × (is_pagesize (m'.words (entry_at p i)) ≡ false)
      × (table_entry (m'.words (entry_at p i)) ≡ t)

  old_lem :
      (place : ℕ → Place) (m m' : Memory S) (p l v i t type : ℕ)
      → IsShaped used place m
      → place p ≡ table (suc (suc l)) v
      → i < 512
      → is_present (m.words (entry_at p i)) ≡ true
      → ◌>>◌ {B = ℕ × Memory S}
          (require (check_bits (m.words (entry_at p i)) == check_bits (table_flags type)))
          (some (table_entry (m.words (entry_at p i)), m))
        ≡ some (t, m')
      → (place' : ℕ → Place) × IsEntered place m p l v i t m' place'
  old_lem place m m' p l v i t type shaped at hi present e =
      let c =
        require-some (check_bits (m.words (entry_at p i)) == check_bits (table_flags type)) _ _ e in
      let small = no_pagesize type (m.words (entry_at p i)) (ground (arith, c.0)) in
      let found : table_entry (m.words (entry_at p i)) ≡ t = ground (arith, c.1) in
      let same : m ≡ m' = ground (arith, c.1) in
      (
        place,
        subst (λ n. IsEntered place m p l v i t n place) same
            (
              shaped,
              subst (λ x. place x ≡ table (suc l) (v * 512 + i)) found
                  (shaped.child p l v i at hi present small),
              (λ q k w h. h),
              (λ q k w j h hj pr. refl),
              present,
              small,
              found,
            ),
      )

  fresh_lem :
      (place : ℕ → Place) (m m' : Memory S) (p l v i t type : ℕ)
      → IsShaped used place m
      → place p ≡ table (suc (suc l)) v
      → i < 512
      → is_present (m.words (entry_at p i)) ≡ false
      → alloc_table_entry source m (entry_at p i) (table_flags type) ≡ some (t, m')
      → (place' : ℕ → Place) × IsEntered place m p l v i t m' place'
  unfolding alloc_table_entry
  fresh_lem place m m' p l v i t type shaped at hi absent e =
      let b = bind-some (source.alloc_page m.pages) _ _ e in
      let n : ℕ = b.0.0 in
      let pages' : S = b.0.1 in
      let taken : source.alloc_page m.pages ≡ some (n, pages') = b.1 in
      let al = sound.aligned m.pages pages' n taken in
      let words' : Words = entered m.words n (entry_at p i) (n + table_flags type) in
      let here : ℕ → Place = place_with place n (table (suc l) (v * 512 + i)) in
      let stay =
        fresh_words source used sound place m pages' p l v i n type shaped at hi absent taken in
      let written = table_flags_entry type n al.0 al.1 in
      let value : words' (entry_at p i) ≡ n + table_flags type = ground arith in
      let result : IsEntered place m p l v i n (record { pages = pages'; words = words' }) here = (
        fresh-IsShaped source used sound place m pages' p l v i n type shaped at hi absent taken,
        ground arith,
        (λ q k w h.
            place_with_other source used sound place n q (table (suc l) (v * 512 + i))
              (stay q k w 0 h (omega arith)).0
            ∙ h),
        (λ q k w j h hj pr. elim (stay q k w j h hj).1 [
          | inl (qp, ji) ↦ ground (arith, qp, ji, absent, pr)
          | inr keeps ↦ keeps
        ]),
        ap is_present value ∙ written.0,
        ap is_pagesize value ∙ written.1,
        ap table_entry value ∙ written.2,
      ) in
      let same_t : n ≡ t = ground (arith, b.2) in
      let same_m : record { pages = pages'; words = words' } ≡ m' = ground (arith, b.2) in
      (
        here,
        subst (λ x. IsEntered place m p l v i x m' here) same_t
            (subst (λ x. IsEntered place m p l v i n x here) same_m result),
      )

  -- A table that is found or entered keeps the shape, the tables and the entries that are present.
  pub alloc_if_not_present_lem :
      (place : ℕ → Place) (m m' : Memory S) (p l v i t type : ℕ)
      → IsShaped used place m
      → place p ≡ table (suc (suc l)) v
      → i < 512
      → alloc_if_not_present source m (entry_at p i) (table_flags type) ≡ some (t, m')
      → (place' : ℕ → Place) × IsEntered place m p l v i t m' place'
  unfolding alloc_if_not_present
  alloc_if_not_present_lem place m m' p l v i t type shaped at hi e =
      elim (Bool-cases (is_present (m.words (entry_at p i)))) [
        | inl present ↦ old_lem place m m' p l v i t type shaped at hi present (rw present at e)
        | inr absent ↦ fresh_lem place m m' p l v i t type shaped at hi absent (rw absent at e)
      ]
