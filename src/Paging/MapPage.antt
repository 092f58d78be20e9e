-- ===== src/Paging/MapPage.antt =====
-- A round of the loop of `do_map_memory` in kernel/mm.cpp, as a whole.
use attos.Common.{
  ℕ, ◌%◌, ◌^◌, ◌<◌, ◌≡◌, some, arith, Bool-cases, inl, inr, subst, bind-some, if-true, if-false,
}
use attos.Paging.Address.{
  page_size, pml4e, pdpe, pde, is_1gb, is_2mb, memory_type_page_size, table_flags,
}
use attos.Paging.Tables.{Words, entry_at, Memory, PageSource, alloc_if_not_present, map_page}
use attos.Paging.Shape.{Place, table, IsShaped, IsPageSource}
use attos.Paging.Walk.{Walks}
use attos.Paging.Round.{IsMapped, IsMapped-1gb, IsMapped-2mb, IsMapped-4kb}
use attos.Paging.Changed.{entered-Walks}
use attos.Paging.Descent.{above_3, above_2, above_1}

module _ {S : Type 0} (source : PageSource S) (used : S → ℕ → Type 0)
    (sound : IsPageSource source used) where
  -- Translations carry over.
  abbrev Carries : Words → ℕ → Words → Type 0
  Carries words top words' =
      (virt size r : ℕ) → Walks words top virt size r → Walks words' top virt size r

  finish :
      (size size' : ℕ) (m m1 m2 m' : Memory S) (top virt phys : ℕ) (place : ℕ → Place)
      → Carries m.words top m1.words
      → size ≡ size'
      → IsMapped used size m1 top virt phys m2 place
      → some m2 ≡ some m'
      → (place' : ℕ → Place) × IsMapped used size' m top virt phys m' place'
  finish size size' m m1 m2 m' top virt phys place earlier same done made =
      let same_m : m2 ≡ m' = ground (arith, made) in
      let all : IsMapped used size m top virt phys m2 place = (
        done.0,
        done.1,
        done.2,
        λ virt' n r other walk. done.3 virt' n r other (earlier virt' n r walk),
      ) in
      (
        place,
        subst (λ n. IsMapped used n m top virt phys m' place) same
            (subst (λ n. IsMapped used size m top virt phys n place) same_m all),
      )

  pub map_page_lem :
      (place : ℕ → Place) (m m' : Memory S) (type top virt phys : ℕ)
      → IsShaped used place m
      → place top ≡ table 4 0
      → phys % memory_type_page_size type ≡ 0
      → phys < 2 ^ 52
      → map_page source top type m virt phys ≡ some m'
      → (place' : ℕ → Place) × IsMapped used (memory_type_page_size type) m top virt phys m' place'
  unfolding map_page
  map_page_lem place m m' type top virt phys shaped at al lt e =
      let b3 =
        bind-some (alloc_if_not_present source m (entry_at top (pml4e virt)) (table_flags type)) _ _
          e in
      let pdp : ℕ = b3.0.0 in
      let m1 : Memory S = b3.0.1 in
      let (place1, shaped1, at1, above1, keeps1) =
        above_3 source used sound place m m1 type top virt pdp shaped at b3.1 in
      let walks1 : Carries m.words top m1.words =
        λ virt' n r. entered-Walks used place m m1.words top virt' n r shaped at keeps1 in
      elim (Bool-cases (is_1gb type)) [
        | inl large ↦
            finish (2 ^ 30) (memory_type_page_size type) m m1 _ m' top virt phys place1 walks1
              (ground arith)
              (IsMapped-1gb used place1 m1 type top virt phys pdp shaped1 at1 above1 (ground arith)
                lt)
              (if-true (is_1gb type) _ _ _ large b3.2)
        | inr small ↦
            let b2 =
              bind-some
                (alloc_if_not_present source m1 (entry_at pdp (pdpe virt)) (table_flags type)) _ _
                (if-false (is_1gb type) _ _ _ small b3.2) in
            let pd : ℕ = b2.0.0 in
            let m2 : Memory S = b2.0.1 in
            let (place2, shaped2, at2, above2, keeps2) =
              above_2 source used sound place1 m1 m2 type top virt pdp pd shaped1 at1 above1 b2.1 in
            let walks2 : Carries m.words top m2.words = λ virt' n r walk.
              entered-Walks used place1 m1 m2.words top virt' n r shaped1 at1 keeps2
                (walks1 virt' n r walk) in
            elim (Bool-cases (is_2mb type)) [
              | inl middle ↦
                  finish (2 ^ 21) (memory_type_page_size type) m m2 _ m' top virt phys place2 walks2
                    (ground arith)
                    (IsMapped-2mb used place2 m2 type top virt phys pd shaped2 at2 above2
                      (ground arith) lt)
                    (if-true (is_2mb type) _ _ _ middle b2.2)
              | inr least ↦
                  let b1 =
                    bind-some
                      (alloc_if_not_present source m2 (entry_at pd (pde virt)) (table_flags type)) _
                      _ (if-false (is_2mb type) _ _ _ least b2.2) in
                  let pt : ℕ = b1.0.0 in
                  let m3 : Memory S = b1.0.1 in
                  let (place3, shaped3, at3, above3, keeps3) =
                    above_1 source used sound place2 m2 m3 type top virt pd pt shaped2 at2 above2
                      b1.1 in
                  let walks3 : Carries m.words top m3.words = λ virt' n r walk.
                    entered-Walks used place2 m2 m3.words top virt' n r shaped2 at2 keeps3
                      (walks2 virt' n r walk) in
                  finish page_size (memory_type_page_size type) m m3 _ m' top virt phys place3
                    walks3 (ground arith)
                    (IsMapped-4kb used place3 m3 type top virt phys pt shaped3 at3 above3
                      (ground arith) lt)
                    b1.2
            ]
      ]
