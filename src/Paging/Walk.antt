-- ===== src/Paging/Walk.antt =====
-- `virt_to_phys` of kernel/mm.cpp as a walk along four entries, and writes that leave it alone.
use attos.Common.{
  ℕ, ◌+◌, ◌*◌, ◌/◌, ◌%◌, ◌^◌, ◌≡◌, ap, ◌∙◌, true, false, if◌then◌else◌, some, ◌>>◌, require, arith,
  Bool-cases, inl, inr, require-some, subst,
}
use attos.Paging.Address.{page_size, is_present, is_pagesize, pml4e, pdpe, pde, pte}
use attos.Paging.Tables.{Words, entry_at, table_entry, Memory, virt_to_phys}
use attos.Paging.Shape.{Place, table, IsShaped}

-- The address without its offset, from the top table down to each level.
abbrev pub prefix_3 : ℕ → ℕ
prefix_3 virt = 0 * 512 + pml4e virt

abbrev pub prefix_2 : ℕ → ℕ
prefix_2 virt = prefix_3 virt * 512 + pdpe virt

abbrev pub prefix_1 : ℕ → ℕ
prefix_1 virt = prefix_2 virt * 512 + pde virt

abbrev pub prefix_0 : ℕ → ℕ
prefix_0 virt = prefix_1 virt * 512 + pte virt

-- What an entry that maps a page of `size` bytes yields.
abbrev pub in_page : ℕ → ℕ → ℕ → ℕ
in_page size entry virt = entry % 2 ^ 63 / size * size + virt % size

-- The entries that `virt_to_phys` reads.
abbrev pub entry_4 : Words → ℕ → ℕ → ℕ
entry_4 words top virt = words (entry_at top (pml4e virt))

abbrev pub entry_3 : Words → ℕ → ℕ → ℕ
entry_3 words top virt = words (entry_at (table_entry (entry_4 words top virt)) (pdpe virt))

abbrev pub entry_2 : Words → ℕ → ℕ → ℕ
entry_2 words top virt = words (entry_at (table_entry (entry_3 words top virt)) (pde virt))

abbrev pub entry_1 : Words → ℕ → ℕ → ℕ
entry_1 words top virt = words (entry_at (table_entry (entry_2 words top virt)) (pte virt))

-- The three ways to a page, from the entries on the way.
pub data Reads (e4 e3 e2 e1 : ℕ) (virt : ℕ) : ℕ → ℕ → Type 0 where
  at_3 :
      is_present e4 ≡ true
      → is_present e3 ≡ true
      → is_pagesize e3 ≡ true
      → Reads e4 e3 e2 e1 virt (2 ^ 30) (in_page (2 ^ 30) e3 virt)
  at_2 :
      is_present e4 ≡ true
      → is_present e3 ≡ true
      → is_pagesize e3 ≡ false
      → is_present e2 ≡ true
      → is_pagesize e2 ≡ true
      → Reads e4 e3 e2 e1 virt (2 ^ 21) (in_page (2 ^ 21) e2 virt)
  at_1 :
      is_present e4 ≡ true
      → is_present e3 ≡ true
      → is_pagesize e3 ≡ false
      → is_present e2 ≡ true
      → is_pagesize e2 ≡ false
      → is_present e1 ≡ true
      → Reads e4 e3 e2 e1 virt page_size (in_page page_size e1 virt)

abbrev pub Walks : Words → ℕ → ℕ → ℕ → ℕ → Type 0
Walks words top virt size r =
    Reads (entry_4 words top virt) (entry_3 words top virt) (entry_2 words top virt)
      (entry_1 words top virt) virt size r

pub Reads-of :
    (e4 e3 e2 e1 virt r : ℕ)
    → ◌>>◌ {B = ℕ} (require (is_present e4)) (
        require (is_present e3)
        >> (if is_pagesize e3
            then some (in_page (2 ^ 30) e3 virt)
            else require (is_present e2)
              >> (if is_pagesize e2
                  then some (in_page (2 ^ 21) e2 virt)
                  else require (is_present e1) >> some (in_page page_size e1 virt))))
      ≡ some r
    → (size : ℕ) × Reads e4 e3 e2 e1 virt size r
Reads-of e4 e3 e2 e1 virt r e =
    let c4 = require-some (is_present e4) _ _ e in
    let c3 = require-some (is_present e3) _ _ c4.1 in
    elim (Bool-cases (is_pagesize e3)) [
      | inl b3 ↦ (
        (2 ^ 30),
        subst (Reads e4 e3 e2 e1 virt (2 ^ 30)) (ground (arith, c3.1, b3)) (at_3 c4.0 c3.0 b3),
      )
      | inr b3 ↦
          let c2 = require-some (is_present e2) _ _ (rw b3 at c3.1) in
          elim (Bool-cases (is_pagesize e2)) [
            | inl b2 ↦ (
              (2 ^ 21),
              subst (Reads e4 e3 e2 e1 virt (2 ^ 21)) (ground (arith, c2.1, b2))
                  (at_2 c4.0 c3.0 b3 c2.0 b2),
            )
            | inr b2 ↦
                let c1 = require-some (is_present e1) _ _ (rw b2 at c2.1) in
                (
                  page_size,
                  subst (Reads e4 e3 e2 e1 virt page_size) (ground (arith, c1.1))
                      (at_1 c4.0 c3.0 b3 c2.0 b2 c1.0),
                )
          ]
    ]

-- The walk of a result.
pub walk_of :
    (words : Words) (pml4 virt r : ℕ)
    → table_entry pml4 ≡ pml4
    → virt_to_phys words pml4 virt ≡ some r
    → (size : ℕ) × Walks words pml4 virt size r
unfolding virt_to_phys
walk_of words pml4 virt r same e =
    subst (λ top. (size : ℕ) × Walks words top virt size r) same
      (Reads-of (entry_4 words (table_entry pml4) virt) (entry_3 words (table_entry pml4) virt)
        (entry_2 words (table_entry pml4) virt) (entry_1 words (table_entry pml4) virt) virt r e)

pub virt_to_phys_of :
    (words : Words) (pml4 virt size r : ℕ)
    → table_entry pml4 ≡ pml4
    → Walks words pml4 virt size r
    → virt_to_phys words pml4 virt ≡ some r
unfolding virt_to_phys
virt_to_phys_of words pml4 virt _ _ same (at_3 h4 h3 b3) = ground arith
virt_to_phys_of words pml4 virt _ _ same (at_2 h4 h3 b3 h2 b2) = ground arith
virt_to_phys_of words pml4 virt _ _ same (at_1 h4 h3 b3 h2 b2 h1) = ground arith

-- The entry of the way at a level is left alone where it is present.
abbrev pub KeepsAt : (ℕ → Place) → Words → Words → ℕ → ℕ → ℕ → Type 0
KeepsAt place words words' level prefix i =
    (p : ℕ)
    → place p ≡ table level prefix
    → is_present (words (entry_at p i)) ≡ true
    → words' (entry_at p i) ≡ words (entry_at p i)

pub record KeepsWay (place : ℕ → Place) (virt : ℕ) (words words' : Words) : Type 0 where
  pub way_4 : KeepsAt place words words' 4 0 (pml4e virt)
  pub way_3 : KeepsAt place words words' 3 (prefix_3 virt) (pdpe virt)
  pub way_2 : KeepsAt place words words' 2 (prefix_2 virt) (pde virt)
  pub way_1 : KeepsAt place words words' 1 (prefix_1 virt) (pte virt)

module _ {S : Type 0} (used : S → ℕ → Type 0) (place : ℕ → Place) (m : Memory S)
    (shaped : IsShaped used place m) where
  pub place_3 :
      (top virt : ℕ)
      → place top ≡ table 4 0
      → is_present (entry_4 m.words top virt) ≡ true
      → place (table_entry (entry_4 m.words top virt)) ≡ table 3 (prefix_3 virt)
  place_3 top virt at h4 =
      shaped.child top 2 0 (pml4e virt) at (omega arith) h4
        (shaped.top top 0 (pml4e virt) at (omega arith) h4)

  pub place_2 :
      (top virt : ℕ)
      → place top ≡ table 4 0
      → is_present (entry_4 m.words top virt) ≡ true
      → is_present (entry_3 m.words top virt) ≡ true
      → is_pagesize (entry_3 m.words top virt) ≡ false
      → place (table_entry (entry_3 m.words top virt)) ≡ table 2 (prefix_2 virt)
  place_2 top virt at h4 h3 b3 =
      shaped.child (table_entry (entry_4 m.words top virt)) 1 (prefix_3 virt) (pdpe virt)
        (place_3 top virt at h4) (omega arith) h3 b3

  pub place_1 :
      (top virt : ℕ)
      → place top ≡ table 4 0
      → is_present (entry_4 m.words top virt) ≡ true
      → is_present (entry_3 m.words top virt) ≡ true
      → is_pagesize (entry_3 m.words top virt) ≡ false
      → is_present (entry_2 m.words top virt) ≡ true
      → is_pagesize (entry_2 m.words top virt) ≡ false
      → place (table_entry (entry_2 m.words top virt)) ≡ table 1 (prefix_1 virt)
  place_1 top virt at h4 h3 b3 h2 b2 =
      shaped.child (table_entry (entry_3 m.words top virt)) 0 (prefix_2 virt) (pde virt)
        (place_2 top virt at h4 h3 b3) (omega arith) h2 b2

  pub keeps_3 :
      (words' : Words) (top virt : ℕ)
      → place top ≡ table 4 0
      → KeepsAt place m.words words' 4 0 (pml4e virt)
      → KeepsAt place m.words words' 3 (prefix_3 virt) (pdpe virt)
      → is_present (entry_4 m.words top virt) ≡ true
      → is_present (entry_3 m.words top virt) ≡ true
      → entry_3 words' top virt ≡ entry_3 m.words top virt
  keeps_3 words' top virt at k4 k3 h4 h3 =
      ap (λ x. words' (entry_at (table_entry x) (pdpe virt))) (k4 top at h4)
      ∙ k3 (table_entry (entry_4 m.words top virt)) (place_3 top virt at h4) h3

  pub keeps_2 :
      (words' : Words) (top virt : ℕ)
      → place top ≡ table 4 0
      → KeepsAt place m.words words' 4 0 (pml4e virt)
      → KeepsAt place m.words words' 3 (prefix_3 virt) (pdpe virt)
      → KeepsAt place m.words words' 2 (prefix_2 virt) (pde virt)
      → is_present (entry_4 m.words top virt) ≡ true
      → is_present (entry_3 m.words top virt) ≡ true
      → is_pagesize (entry_3 m.words top virt) ≡ false
      → is_present (entry_2 m.words top virt) ≡ true
      → entry_2 words' top virt ≡ entry_2 m.words top virt
  keeps_2 words' top virt at k4 k3 k2 h4 h3 b3 h2 =
      ap (λ x. words' (entry_at (table_entry x) (pde virt)))
        (keeps_3 words' top virt at k4 k3 h4 h3)
      ∙ k2 (table_entry (entry_3 m.words top virt)) (place_2 top virt at h4 h3 b3) h2

  -- A walk survives a change that keeps its way.
  pub Walks-keeps :
      (words' : Words) (top virt size r : ℕ)
      → place top ≡ table 4 0
      → KeepsWay place virt m.words words'
      → Walks m.words top virt size r
      → Walks words' top virt size r
  Walks-keeps words' top virt size r at keeps (at_3 h4 h3 b3) =
      let s4 = keeps.way_4 top at h4 in
      let s3 = keeps_3 words' top virt at keeps.way_4 keeps.way_3 h4 h3 in
      subst (Walks words' top virt (2 ^ 30)) (ap (λ x. in_page (2 ^ 30) x virt) s3)
        (at_3 (ap is_present s4 ∙ h4) (ap is_present s3 ∙ h3) (ap is_pagesize s3 ∙ b3))
  Walks-keeps words' top virt size r at keeps (at_2 h4 h3 b3 h2 b2) =
      let s4 = keeps.way_4 top at h4 in
      let s3 = keeps_3 words' top virt at keeps.way_4 keeps.way_3 h4 h3 in
      let s2 = keeps_2 words' top virt at keeps.way_4 keeps.way_3 keeps.way_2 h4 h3 b3 h2 in
      subst (Walks words' top virt (2 ^ 21)) (ap (λ x. in_page (2 ^ 21) x virt) s2) (
        at_2 (ap is_present s4 ∙ h4) (ap is_present s3 ∙ h3) (ap is_pagesize s3 ∙ b3)
          (ap is_present s2 ∙ h2) (ap is_pagesize s2 ∙ b2))
  Walks-keeps words' top virt size r at keeps (at_1 h4 h3 b3 h2 b2 h1) =
      let s4 = keeps.way_4 top at h4 in
      let s3 = keeps_3 words' top virt at keeps.way_4 keeps.way_3 h4 h3 in
      let s2 = keeps_2 words' top virt at keeps.way_4 keeps.way_3 keeps.way_2 h4 h3 b3 h2 in
      let s1 =
        ap (λ x. words' (entry_at (table_entry x) (pte virt))) s2
        ∙ keeps.way_1 (table_entry (entry_2 m.words top virt)) (place_1 top virt at h4 h3 b3 h2 b2)
            h1 in
      subst (Walks words' top virt page_size) (ap (λ x. in_page page_size x virt) s1) (
        at_1 (ap is_present s4 ∙ h4) (ap is_present s3 ∙ h3) (ap is_pagesize s3 ∙ b3)
          (ap is_present s2 ∙ h2) (ap is_pagesize s2 ∙ b2) (ap is_present s1 ∙ h1))
