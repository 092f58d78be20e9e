-- ===== src/Paging/Removal.antt =====
-- Finding and removing a mapping that has been entered, in kernel/mm.cpp.
use attos.Common.{
  ℕ, ◌≤◌, ◌<◌, ◌≡◌, refl, ap, ◌∙◌, ◌==◌, false, ltb, if◌then◌else◌, some, List, [], ◌∷◌, ◌++◌,
  arith, Bool-cases, inl, inr,
}
use attos.Paging.Manager.{Mapping, find_mapping, insert_mapping, remove_mapping}
use attos.Paging.Mappings.{
  IsHalf, end_of, Apart, Chain, Chain-le, Chain-weaken, Apart-no_overlap, self_overlap,
}

-- What a chain says of one of its mappings.
pub Chain-at :
    (P : Mapping → Type 0) (lo hi : ℕ) (n : Mapping) (before after : List Mapping)
    → Chain P lo hi (before ++ n ∷ after)
    → (lo ≤ n.address) × (end_of n ≤ hi) × (0 < n.length) × P n
Chain-at P lo hi n [] after (at, pos, p, c) = (at, Chain-le P (end_of n) hi after c, pos, p)
Chain-at P lo hi n (m ∷ before) after (at, pm, p, c) =
    let (low, top, pos, pn) = Chain-at P (end_of m) hi n before after c in
    (omega (arith, at, low), top, pos, pn)

-- A mapping is found by its own address and length.
pub find_mapping_at :
    (P : Mapping → Type 0) (base lo hi : ℕ) (n : Mapping) (before after : List Mapping)
    → IsHalf base hi
    → base ≤ lo
    → Chain P lo hi (before ++ n ∷ after)
    → find_mapping (before ++ n ∷ after) n.address n.length ≡ some n
unfolding find_mapping
find_mapping_at P base lo hi n [] after half bl (at, pos, p, c) =
    ap (λ b. if b then some n else find_mapping after n.address n.length)
      (self_overlap base hi n half (omega (arith, bl, at)) (Chain-le P (end_of n) hi after c) pos)
find_mapping_at P base lo hi n (m ∷ before) after half bl (at, pm, p, c) =
    let here = Chain-at P (end_of m) hi n before after c in
    ap (λ b. if b then some m else find_mapping (before ++ n ∷ after) n.address n.length)
      (Apart-no_overlap base hi n m half (omega (arith, bl, at, here.0)) here.1
        (omega (arith, bl, at)) (Chain-le P (end_of m) hi (before ++ n ∷ after) c) (inr here.0))
    ∙ find_mapping_at P base (end_of m) hi n before after half (omega (arith, bl, at)) c

-- A mapping is removed, and a second removal does nothing.
pub remove_mapping_at :
    (P : Mapping → Type 0) (lo hi : ℕ) (n : Mapping) (before after : List Mapping)
    → Chain P lo hi (before ++ n ∷ after)
    → remove_mapping n (before ++ n ∷ after) ≡ before ++ after
unfolding remove_mapping
remove_mapping_at P lo hi n [] after c = ground arith
remove_mapping_at P lo hi n (m ∷ before) after (at, pm, p, c) =
    let here = Chain-at P (end_of m) hi n before after c in
    let differ : (n.address == m.address) ≡ false = ground (arith, here.0, pm) in
    ap (λ b. if b then before ++ n ∷ after else m ∷ remove_mapping n (before ++ n ∷ after)) differ
    ∙ ap (λ l. m ∷ l) (remove_mapping_at P (end_of m) hi n before after c)

pub remove_mapping_above :
    (P : Mapping → Type 0) (lo hi : ℕ) (n : Mapping) (l : List Mapping)
    → n.address < lo
    → Chain P lo hi l
    → remove_mapping n l ≡ l
unfolding remove_mapping
remove_mapping_above P lo hi n [] lt c = refl
remove_mapping_above P lo hi n (m ∷ l) lt (at, pm, p, c) =
    let differ : (n.address == m.address) ≡ false = ground (arith, at, lt) in
    ap (λ b. if b then l else m ∷ remove_mapping n l) differ
    ∙ ap (λ k. m ∷ k) (remove_mapping_above P (end_of m) hi n l (omega (arith, at, pm, lt)) c)

pub remove_mapping_again :
    (P : Mapping → Type 0) (lo hi : ℕ) (n : Mapping) (before after : List Mapping)
    → Chain P lo hi (before ++ n ∷ after)
    → remove_mapping n (before ++ after) ≡ before ++ after
unfolding remove_mapping
remove_mapping_again P lo hi n [] after (at, pos, p, c) =
    remove_mapping_above P (end_of n) hi n after (omega (arith, pos)) c
remove_mapping_again P lo hi n (m ∷ before) after (at, pm, p, c) =
    let here = Chain-at P (end_of m) hi n before after c in
    let differ : (n.address == m.address) ≡ false = ground (arith, here.0, pm) in
    ap (λ b. if b then before ++ after else m ∷ remove_mapping n (before ++ after)) differ
    ∙ ap (λ l. m ∷ l) (remove_mapping_again P (end_of m) hi n before after c)

-- What is left when a mapping is taken out.
pub Chain-remove :
    (P Q : Mapping → Type 0) (lo hi : ℕ) (n : Mapping) (before after : List Mapping)
    → ((m : Mapping) → lo ≤ m.address → end_of m ≤ hi → Apart n m → P m → Q m)
    → Chain P lo hi (before ++ n ∷ after)
    → Chain Q lo hi (before ++ after)
Chain-remove P Q lo hi n [] after f (at, pos, p, c) =
    Chain-weaken P Q (end_of n) lo hi after (omega (arith, at))
      (λ m low top pm. f m (omega (arith, at, low)) top (inl low) pm) c
Chain-remove P Q lo hi n (m ∷ before) after f (at, pm, p, c) =
    let here = Chain-at P (end_of m) hi n before after c in
    (
      at,
      pm,
      f m at (Chain-le P (end_of m) hi (before ++ n ∷ after) c) (inr here.0) p,
      Chain-remove P Q (end_of m) hi n before after
          (λ k low top apart pk. f k (omega (arith, at, low)) top apart pk) c,
    )

-- Where a mapping has been entered.
pub insert_mapping_split :
    (n : Mapping) (l : List Mapping)
    → (before after : List Mapping) × (insert_mapping n l ≡ before ++ n ∷ after)
      × (before ++ after ≡ l)
unfolding insert_mapping
insert_mapping_split n [] = ([], [], refl, refl)
insert_mapping_split n (m ∷ l) = elim (Bool-cases (ltb n.address m.address)) [
  | inl lt ↦ ([], m ∷ l, ap (λ b. if b then n ∷ m ∷ l else m ∷ insert_mapping n l) lt, refl)
  | inr ge ↦
      let (before, after, e, r) = insert_mapping_split n l in
      (
        m ∷ before,
        after,
        ap (λ b. if b then n ∷ m ∷ l else m ∷ insert_mapping n l) ge ∙ ap (λ k. m ∷ k) e,
        ap (λ k. m ∷ k) r,
      )
]
