-- ===== src/Paging/Mappings.antt =====
-- The mappings of kernel/mm.cpp in order: finding one, entering one and removing one.
use attos.Common.{
  ℕ, ◌+◌, ◌-◌, ◌^◌, ◌≤◌, ◌<◌, ◌≡◌, sym, ◌∙◌, Bool, true, false, ltb, if◌then◌else◌, none, some,
  List, [], ◌∷◌, arith, Bool-cases, ◌⊎◌, inl, inr, subst, min, max, if-true, if-false,
}
use attos.Paging.Address.{memory_areas_overlap}
use attos.Paging.Manager.{Mapping, find_mapping, insert_mapping}

-- The lower and the upper half of the addresses, by where they start and a bound that addresses keep to.
abbrev pub IsHalf : ℕ → ℕ → Type 0
IsHalf base hi = ((base ≡ 0) × (hi ≡ 2 ^ 47)) ⊎ ((base ≡ 2 ^ 64 - 2 ^ 47) × (hi ≡ 2 ^ 64 - 1))

-- Two areas of one half are reported to overlap if and only if some address lies in both.
pub memory_areas_overlap_lem :
    (base hi start1 len1 start2 len2 : ℕ)
    → IsHalf base hi
    → base ≤ start1
    → start1 + len1 ≤ hi
    → base ≤ start2
    → start2 + len2 ≤ hi
    → memory_areas_overlap start1 len1 start2 len2
      ≡ ltb (max start1 start2) (min (start1 + len1) (start2 + len2))
unfolding memory_areas_overlap
memory_areas_overlap_lem base hi s1 l1 s2 l2 (inl (e, t)) b1 t1 b2 t2 = ground arith
memory_areas_overlap_lem base hi s1 l1 s2 l2 (inr (e, t)) b1 t1 b2 t2 = ground arith

abbrev pub end_of : Mapping → ℕ
end_of m = m.address + m.length

abbrev pub Apart : Mapping → Mapping → Type 0
Apart n m = (end_of n ≤ m.address) ⊎ (end_of m ≤ n.address)

-- Mappings in order, none of which overlap, and each of which has a property.
abbrev pub Chain : (Mapping → Type 0) → ℕ → ℕ → List Mapping → Type 0
Chain P lo hi [] = lo ≤ hi
Chain P lo hi (m ∷ l) = (lo ≤ m.address) × (0 < m.length) × P m × Chain P (end_of m) hi l

pub Chain-le : (P : Mapping → Type 0) (lo hi : ℕ) (l : List Mapping) → Chain P lo hi l → lo ≤ hi
Chain-le P lo hi [] c = c
Chain-le P lo hi (m ∷ l) (le, pos, p, c) = omega (arith, le, pos, Chain-le P (end_of m) hi l c)

-- Overlap with the first mapping, as `find_mapping` sees it.
pub head-Apart :
    (base hi : ℕ) (n m : Mapping)
    → IsHalf base hi
    → base ≤ n.address
    → end_of n ≤ hi
    → 0 < n.length
    → base ≤ m.address
    → end_of m ≤ hi
    → 0 < m.length
    → memory_areas_overlap n.address n.length m.address m.length ≡ false
    → Apart n m
head-Apart base hi n m half bn tn pn bm tm pm e =
    let seen =
      memory_areas_overlap_lem base hi n.address n.length m.address m.length half bn tn bm tm in
    let none_shared : ltb (max n.address m.address) (min (end_of n) (end_of m)) ≡ false =
      sym seen ∙ e in
    ground (arith, none_shared)

pub Apart-no_overlap :
    (base hi : ℕ) (n m : Mapping)
    → IsHalf base hi
    → base ≤ n.address
    → end_of n ≤ hi
    → base ≤ m.address
    → end_of m ≤ hi
    → Apart n m
    → memory_areas_overlap n.address n.length m.address m.length ≡ false
Apart-no_overlap base hi n m half bn tn bm tm apart =
    memory_areas_overlap_lem base hi n.address n.length m.address m.length half bn tn bm tm
    ∙ ground (arith, apart)

pub self_overlap :
    (base hi : ℕ) (n : Mapping)
    → IsHalf base hi
    → base ≤ n.address
    → end_of n ≤ hi
    → 0 < n.length
    → memory_areas_overlap n.address n.length n.address n.length ≡ true
self_overlap base hi n half bn tn pos =
    memory_areas_overlap_lem base hi n.address n.length n.address n.length half bn tn bn tn
    ∙ ground (arith, pos)

-- The part of a chain from a higher start on, under a property that follows.
pub Chain-weaken :
    (P Q : Mapping → Type 0) (lo lo' hi : ℕ) (l : List Mapping)
    → lo' ≤ lo
    → ((m : Mapping) → lo ≤ m.address → end_of m ≤ hi → P m → Q m)
    → Chain P lo hi l
    → Chain Q lo' hi l
Chain-weaken P Q lo lo' hi [] le f c = omega (arith, le, c)
Chain-weaken P Q lo lo' hi (m ∷ l) le f (at, pos, p, c) = (
  omega (arith, le, at),
  pos,
  f m at (Chain-le P (end_of m) hi l c) p,
  Chain-weaken P Q (end_of m) (end_of m) hi l (omega arith)
      (λ k low top q. f k (omega (arith, low, at)) top q) c,
)

-- A mapping that overlaps none is entered in its place.
pub Chain-insert :
    (P Q : Mapping → Type 0) (base lo hi : ℕ) (n : Mapping) (l : List Mapping)
    → IsHalf base hi
    → base ≤ lo
    → lo ≤ n.address
    → end_of n ≤ hi
    → 0 < n.length
    → Q n
    → ((m : Mapping) → base ≤ m.address → end_of m ≤ hi → Apart n m → P m → Q m)
    → find_mapping l n.address n.length ≡ none
    → Chain P lo hi l
    → Chain Q lo hi (insert_mapping n l)
unfolding find_mapping insert_mapping
Chain-insert P Q base lo hi n [] half bl low top pos q f gone c = (low, pos, q, top)
Chain-insert P Q base lo hi n (m ∷ l) half bl low top pos q f gone (at, pm, p, c) =
    let overlap : Bool = memory_areas_overlap n.address n.length m.address m.length in
    let m_top : end_of m ≤ hi = Chain-le P (end_of m) hi l c in
    let free_of_m : overlap ≡ false = elim (Bool-cases overlap) [
      | inl o ↦ (let found : some m ≡ none = if-true overlap _ _ none o gone in absurd cc)
      | inr o ↦ o
    ] in
    let apart : Apart n m =
      head-Apart base hi n m half (omega (arith, bl, low)) top pos (omega (arith, bl, at)) m_top pm
        free_of_m in
    let q_m : Q m = f m (omega (arith, bl, at)) m_top apart p in
    elim (Bool-cases (ltb n.address m.address)) [
      | inl lt ↦
          let clear : end_of n ≤ m.address = ground (arith, lt, apart, pm) in
          subst (λ b. Chain Q lo hi (if b then n ∷ m ∷ l else m ∷ insert_mapping n l)) (sym lt)
            (
              low,
              pos,
              q,
              (
                clear,
                pm,
                q_m,
                Chain-weaken P Q (end_of m) (end_of m) hi l (omega arith)
                    (λ k k_low k_top pk.
                      f k (omega (arith, bl, at, k_low)) k_top (inl (omega (arith, clear, k_low)))
                        pk)
                    c,
              ),
            )
      | inr ge ↦
          let clear : end_of m ≤ n.address = ground (arith, ge, apart, pos) in
          subst (λ b. Chain Q lo hi (if b then n ∷ m ∷ l else m ∷ insert_mapping n l)) (sym ge)
            (
              at,
              pm,
              q_m,
              Chain-insert P Q base (end_of m) hi n l half (omega (arith, bl, at)) clear top pos q f
                  (if-false overlap _ _ none free_of_m gone) c,
            )
    ]
