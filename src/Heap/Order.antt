-- ===== src/Heap/Order.antt =====
-- The free list of `simple_heap`: sorted, apart and in range, byte by byte.
use attos.Common.{
  ℕ, ◌+◌, ◌%◌, ◌^◌, ◌≤◌, ◌<◌, ◌≡◌, refl, List, [], ◌∷◌, ◌&&◌, ltb, leb, if◌then◌else◌, arith, u64,
  ◌⊎◌,
}
use attos.Heap.{FreeNode, coalesce_from}

-- Is the byte at `a` one of the `s` bytes at `p`?
abbrev pub inside : ℕ → ℕ → ℕ → ℕ
inside a p s = if leb p a && ltb a (p + s) then 1 else 0

-- How many nodes of the list hold the byte at `a`.
abbrev pub occ : ℕ → List FreeNode → ℕ
occ a [] = 0
occ a (n ∷ rest) = inside a n.addr n.size + occ a rest

-- Nodes lie between `lo` and `hi`, by address, apart, and in units of `sizeof(free_node)`.
abbrev pub Chain : ℕ → ℕ → List FreeNode → Type 0
Chain lo hi [] = Unit {0}
Chain lo hi (n ∷ rest) =
    (lo ≤ n.addr)
    × (0 < n.size)
    × (n.addr % 16 ≡ 0)
    × (n.size % 16 ≡ 0)
    × (n.addr + n.size ≤ hi)
    × Chain (n.addr + n.size) hi rest

-- The list starts at `x`, and its first node does not touch the second.
abbrev pub Gap : ℕ → ℕ → List FreeNode → Type 0
Gap x hi [] = ⊥
Gap x hi (n ∷ rest) = (n.addr ≡ x) × Chain (n.addr + n.size + 1) hi rest

-- No node of the list meets the `s` bytes at `p`.
abbrev pub Apart : ℕ → ℕ → List FreeNode → Type 0
Apart p s [] = Unit {0}
Apart p s (n ∷ rest) = ((p + s ≤ n.addr) ⊎ (n.addr + n.size ≤ p)) × Apart p s rest

pub Chain-mono : (lo lo' hi : ℕ) (l : List FreeNode) → lo' ≤ lo → Chain lo hi l → Chain lo' hi l
Chain-mono lo lo' hi [] h c = tt
Chain-mono lo lo' hi (n ∷ rest) h c = (omega arith, c.1, c.2, c.3, c.4, c.5)

pub occ_below : (a lo hi : ℕ) (l : List FreeNode) → a < lo → Chain lo hi l → occ a l ≡ 0
occ_below a lo hi [] h c = refl
occ_below a lo hi (n ∷ rest) h c = ground (arith, occ_below a (n.addr + n.size) hi rest)

module _ (hi : ℕ) (fits : hi < 2 ^ 64) where
  pub coalesce_from-Chain :
      (lo : ℕ) (f : FreeNode) (l : List FreeNode)
      → Chain lo hi (f ∷ l)
      → Chain lo hi (coalesce_from f l)
  unfolding coalesce_from
  coalesce_from-Chain lo f [] c = c
  coalesce_from-Chain lo f (n ∷ rest) c =
      ground (
        arith,
        coalesce_from-Chain lo (record { addr = f.addr; size = u64 (f.size + n.size) }) rest,
      )

  pub coalesce_from-Gap :
      (lo : ℕ) (f : FreeNode) (l : List FreeNode)
      → Chain lo hi (f ∷ l)
      → Gap f.addr hi (coalesce_from f l)
  unfolding coalesce_from
  coalesce_from-Gap lo f [] c = (refl, tt)
  coalesce_from-Gap lo f (n ∷ rest) c =
      ground
        (arith, coalesce_from-Gap lo (record { addr = f.addr; size = u64 (f.size + n.size) }) rest)

  pub occ-coalesce_from :
      (a lo : ℕ) (f : FreeNode) (l : List FreeNode)
      → Chain lo hi (f ∷ l)
      → occ a (coalesce_from f l) ≡ inside a f.addr f.size + occ a l
  unfolding coalesce_from
  occ-coalesce_from a lo f [] c = refl
  occ-coalesce_from a lo f (n ∷ rest) c =
      ground (
        arith,
        occ-coalesce_from a lo (record { addr = f.addr; size = u64 (f.size + n.size) }) rest,
      )
