-- ===== src/Heap/Update.antt =====
-- What `insert_free` and `alloc_from` of `simple_heap` do to the free list, byte by byte.
use attos.Common.{
  ℕ, ◌+◌, ◌-◌, ◌%◌, ◌^◌, ◌≤◌, ◌<◌, ◌≡◌, refl, List, [], ◌∷◌, none, some, ltb, arith, u64, ◌⊎◌, inl,
  inr, ◌↔◌, ◌*◌, ◌/◌, sym, subst, Option-cases, Bool-cases,
}
use attos.Heap.{FreeNode, coalesce_from, insert_after, insert_free, alloc_from}
use attos.Heap.Order.{
  inside, occ, Chain, Gap, Apart, Chain-mono, coalesce_from-Chain, coalesce_from-Gap,
  occ-coalesce_from,
}

-- The node at `lo`, if there is one, has been joined with what follows it.
abbrev pub HeadMerged : ℕ → ℕ → List FreeNode → Type 0
HeadMerged lo hi [] = Unit {0}
HeadMerged lo hi (n ∷ rest) = n.addr ≡ lo → Chain (n.addr + n.size + 1) hi rest

Gap-HeadMerged : (x lo hi : ℕ) (l : List FreeNode) → Gap x hi l → HeadMerged lo hi l
Gap-HeadMerged x lo hi [] g = tt
Gap-HeadMerged x lo hi (n ∷ rest) g = λ _. g.1

module _ (hi : ℕ) (fits : hi < 2 ^ 64) (new : FreeNode) (pos : 0 < new.size)
    (aligned : new.addr % 16 ≡ 0) (whole : new.size % 16 ≡ 0)
    (in_range : new.addr + new.size ≤ hi) where
  pub insert_after-Chain :
      (lo : ℕ) (prev : FreeNode) (l : List FreeNode)
      → prev.addr ≤ new.addr
      → Apart new.addr new.size (prev ∷ l)
      → Chain lo hi (prev ∷ l)
      → Chain lo hi (insert_after prev l new)
  unfolding insert_after
  insert_after-Chain lo prev [] h p c =
      ground (arith, coalesce_from-Chain hi fits lo prev (new ∷ []))
  insert_after-Chain lo prev (n ∷ rest) h p c = ground (
    arith,
    insert_after-Chain (prev.addr + prev.size) n rest,
    coalesce_from-Chain hi fits lo prev (new ∷ n ∷ rest),
  )

  pub occ-insert_after :
      (a lo : ℕ) (prev : FreeNode) (l : List FreeNode)
      → prev.addr ≤ new.addr
      → Apart new.addr new.size (prev ∷ l)
      → Chain lo hi (prev ∷ l)
      → occ a (insert_after prev l new) ≡ inside a new.addr new.size + occ a (prev ∷ l)
  unfolding insert_after
  occ-insert_after a lo prev [] h p c =
      ground (arith, occ-coalesce_from hi fits a lo prev (new ∷ []))
  occ-insert_after a lo prev (n ∷ rest) h p c = ground (
    arith,
    occ-insert_after a (prev.addr + prev.size) n rest,
    occ-coalesce_from hi fits a lo prev (new ∷ n ∷ rest),
  )

  pub insert_free-Chain :
      (lo : ℕ) (l : List FreeNode)
      → lo ≤ new.addr
      → Apart new.addr new.size l
      → Chain lo hi l
      → Chain lo hi (insert_free l new)
  unfolding insert_free
  insert_free-Chain lo [] h p c = ground (arith, coalesce_from-Chain hi fits lo new [])
  insert_free-Chain lo (n ∷ rest) h p c =
      ground (arith, insert_after-Chain lo n rest, coalesce_from-Chain hi fits lo new (n ∷ rest))

  pub occ-insert_free :
      (a lo : ℕ) (l : List FreeNode)
      → lo ≤ new.addr
      → Apart new.addr new.size l
      → Chain lo hi l
      → occ a (insert_free l new) ≡ inside a new.addr new.size + occ a l
  unfolding insert_free
  occ-insert_free a lo [] h p c = ground (arith, occ-coalesce_from hi fits a lo new [])
  occ-insert_free a lo (n ∷ rest) h p c =
      ground (arith, occ-insert_after a lo n rest, occ-coalesce_from hi fits a lo new (n ∷ rest))

  insert_after-HeadMerged :
      (lo : ℕ) (prev : FreeNode) (l : List FreeNode)
      → prev.addr ≤ new.addr
      → Apart new.addr new.size (prev ∷ l)
      → Chain lo hi (prev ∷ l)
      → HeadMerged lo hi (prev ∷ l)
      → HeadMerged lo hi (insert_after prev l new)
  unfolding insert_after
  insert_after-HeadMerged lo prev [] h p c m =
      Gap-HeadMerged prev.addr lo hi _ (coalesce_from-Gap hi fits lo prev (new ∷ []) (ground arith))
  insert_after-HeadMerged lo prev (n ∷ rest) h p c m = elim (Bool-cases (ltb n.addr new.addr)) [
    | inl further ↦
        rw further
          λ at. insert_after-Chain (prev.addr + prev.size + 1) n rest (ground arith) p.1 (m at)
    | inr stop ↦ rw stop (
        Gap-HeadMerged prev.addr lo hi _
          (coalesce_from-Gap hi fits lo prev (new ∷ n ∷ rest) (ground arith)))
  ]

  pub insert_free-HeadMerged :
      (lo : ℕ) (l : List FreeNode)
      → lo ≤ new.addr
      → Apart new.addr new.size l
      → Chain lo hi l
      → HeadMerged lo hi l
      → HeadMerged lo hi (insert_free l new)
  unfolding insert_free
  insert_free-HeadMerged lo [] h p c m =
      Gap-HeadMerged new.addr lo hi (coalesce_from new [])
        (coalesce_from-Gap hi fits lo new [] (ground arith))
  insert_free-HeadMerged lo (n ∷ rest) h p c m = elim (Bool-cases (ltb new.addr n.addr)) [
    | inl first ↦ rw first (
        Gap-HeadMerged new.addr lo hi _
          (coalesce_from-Gap hi fits lo new (n ∷ rest) (ground arith)))
    | inr later ↦ rw later (insert_after-HeadMerged lo n rest (ground arith) p c m)
  ]

-- The three ways in which `alloc_from` succeeds at a node: further on, on all of it, on a part.
abbrev Cuts : ℕ → FreeNode → List FreeNode → ℕ → List FreeNode → Type 0
Cuts size n rest p l' =
    ((r : List FreeNode) × (n.size < size) × (alloc_from size rest ≡ some (p, r)) × (l' ≡ n ∷ r))
    ⊎ ((n.size ≡ size) × (p ≡ n.addr) × (l' ≡ rest))
    ⊎ ((size < n.size)
        × (p ≡ n.addr)
        × (l' ≡ record { addr = u64 (n.addr + size / 16 * 16); size = n.size - size } ∷ rest))

alloc_from-Cuts :
    (size p : ℕ) (n : FreeNode) (rest l' : List FreeNode)
    → alloc_from size (n ∷ rest) ≡ some (p, l')
    → Cuts size n rest p l'
unfolding alloc_from
alloc_from-Cuts size p n rest l' e = elim (Option-cases (alloc_from size rest)) [
  | inl gone ↦ ground arith
  | inr ((q, r), found) ↦ elim (Bool-cases (ltb n.size size)) [
    | inl small ↦ inl (r, ground arith, ground arith, ground arith)
    | inr big ↦ inr (ground arith)
  ]
]

module _ (size : ℕ) (pos : 0 < size) (whole : size % 16 ≡ 0) (hi : ℕ) (fits : hi < 2 ^ 64) where
  -- The block lies in one node, `l'` is what is left of the list.
  pub record IsCut (lo : ℕ) (l : List FreeNode) (p : ℕ) (l' : List FreeNode) : Type 0 where
    pub above : lo ≤ p
    pub below : p + size ≤ hi
    pub aligned : p % 16 ≡ 0
    pub chain : Chain lo hi l'
    pub bytes : (a : ℕ) → occ a l ≡ inside a p size + occ a l'

  IsCut-later :
      (lo p : ℕ) (n : FreeNode) (rest r : List FreeNode)
      → Chain lo hi (n ∷ rest)
      → IsCut (n.addr + n.size) rest p r
      → IsCut lo (n ∷ rest) p (n ∷ r)
  IsCut-later lo p n rest r c i = record {
    above = omega arith;
    below = omega arith;
    aligned = omega arith;
    chain = (c.0, c.1, c.2, c.3, c.4, i.chain);
    bytes = λ a. omega (arith, i.bytes a);
  }

  pub alloc_from-IsCut :
      (lo p : ℕ) (l l' : List FreeNode)
      → Chain lo hi l
      → alloc_from size l ≡ some (p, l')
      → IsCut lo l p l'
  alloc_from-IsCut lo p [] l' c e = absurd (unfold alloc_from in cc)
  alloc_from-IsCut lo p (n ∷ rest) l' c e = elim (alloc_from-Cuts size p n rest l' e) [
    | inl (r, small, found, out) ↦
        subst (IsCut lo (n ∷ rest) p) (sym out)
          (IsCut-later lo p n rest r c (alloc_from-IsCut (n.addr + n.size) p rest r c.5 found))
    | inr (inl (fit, at, out)) ↦ record {
      above = omega arith;
      below = omega arith;
      aligned = omega arith;
      chain = rw out (Chain-mono (n.addr + n.size) lo hi rest (omega arith) c.5);
      bytes = λ a. rw (out, at, ← fit) refl;
    }
    | inr (inr (big, at, out)) ↦ record {
      above = omega arith;
      below = omega arith;
      aligned = omega arith;
      chain = rw out (ground arith);
      bytes = λ a. rw (out, at) (ground arith);
    }
  ]

  pub alloc_from-HeadMerged :
      (lo p : ℕ) (l l' : List FreeNode)
      → Chain lo hi l
      → HeadMerged lo hi l
      → alloc_from size l ≡ some (p, l')
      → HeadMerged lo hi l'
  alloc_from-HeadMerged lo p [] l' c m e = absurd (unfold alloc_from in cc)
  alloc_from-HeadMerged lo p (n ∷ rest) l' c m e = elim (alloc_from-Cuts size p n rest l' e) [
    | inl (r, small, found, out) ↦
        rw out λ at. (alloc_from-IsCut (n.addr + n.size + 1) p rest r (m at) found).chain
    | inr (inl (fit, at, out)) ↦ rw out (apart rest c.5)
    | inr (inr (big, at, out)) ↦ rw out λ h. absurd (omega arith)
  ]
    where
      apart : (r : List FreeNode) → Chain (n.addr + n.size) hi r → HeadMerged lo hi r
      apart [] d = tt
      apart (k ∷ r) d = λ h. absurd (omega arith)

-- A request fails exactly when no single node is large enough.
abbrev pub AllSmaller : ℕ → List FreeNode → Type 0
AllSmaller size [] = Unit {0}
AllSmaller size (n ∷ rest) = (n.size < size) × AllSmaller size rest

pub alloc_from-none : (size : ℕ) (l : List FreeNode) → alloc_from size l ≡ none ↔ AllSmaller size l
unfolding alloc_from
alloc_from-none size [] = (λ h. tt, λ h. refl)
alloc_from-none size (n ∷ rest) = (
  λ h. ground (arith, (alloc_from-none size rest).0),
  λ h. ground (arith, (alloc_from-none size rest).1),
)
