-- ===== src/Heap/Clients.antt =====
-- `simple_heap` under any history of its callers: `alloc` in whole nodes, `free` of live blocks.
use attos.Common.{
  ℕ, ◌+◌, ◌%◌, ◌^◌, ◌≤◌, ◌<◌, ◌≡◌, refl, List, [], ◌∷◌, ◌++◌, some, arith, u64, inl, inr,
  Option-cases, true, sym, ap, subst,
}
use attos.Heap.{FreeNode, SimpleHeap, init, alloc, free, destroy, insert_free, alloc_from, is_whole}
use attos.Heap.Order.{inside, occ, Chain, Apart, occ_below}
use attos.Heap.Update.{
  HeadMerged, insert_free-Chain, occ-insert_free, insert_free-HeadMerged, alloc_from-IsCut,
  alloc_from-HeadMerged,
}

-- The heap beside the blocks that its callers hold.
pub record Client : Type 0 where
  pub heap : SimpleHeap
  pub live : List FreeNode

pub data Step (c : Client) : Client → Type 0 where
  allocs :
      (size p : ℕ) (h : SimpleHeap)
      → 0 < size
      → size % 16 ≡ 0
      → alloc c.heap size ≡ some (p, h)
      → Step c (record { heap = h; live = record { addr = p; size = size } ∷ c.live })
  frees :
      (before after : List FreeNode) (b : FreeNode) (h : SimpleHeap)
      → c.live ≡ before ++ b ∷ after
      → free c.heap b.addr b.size ≡ some h
      → Step c (record { heap = h; live = before ++ after })

pub data Reach (c : Client) : Client → Type 0 where
  here : Reach c c
  next : {d e : Client} → Reach c d → Step d e → Reach c e

abbrev IsBlock : ℕ → ℕ → FreeNode → Type 0
IsBlock lo hi b =
    (lo ≤ b.addr) × (0 < b.size) × (b.addr % 16 ≡ 0) × (b.size % 16 ≡ 0) × (b.addr + b.size ≤ hi)

abbrev AllBlocks : ℕ → ℕ → List FreeNode → Type 0
AllBlocks lo hi [] = Unit {0}
AllBlocks lo hi (b ∷ l) = IsBlock lo hi b × AllBlocks lo hi l

-- Each byte between `lo` and `hi` is in one free node or in one live block, and in no two.
abbrev pub IsShared : ℕ → ℕ → List FreeNode → List FreeNode → Type 0
IsShared lo hi free_list live = (a : ℕ) → lo ≤ a → a < hi → occ a free_list + occ a live ≡ 1

pub record Inv (lo hi : ℕ) (c : Client) : Type 0 where
  pub base_eq : c.heap.base ≡ lo
  pub end_eq : c.heap.end_addr ≡ hi
  pub chain : Chain lo hi c.heap.free_list
  pub merged : HeadMerged lo hi c.heap.free_list
  pub blocks : AllBlocks lo hi c.live
  pub shared : IsShared lo hi c.heap.free_list c.live

occ-append : (a : ℕ) (xs ys : List FreeNode) → occ a (xs ++ ys) ≡ occ a xs + occ a ys
occ-append a [] ys = omega arith
occ-append a (x ∷ xs) ys = omega (arith, occ-append a xs ys)

AllBlocks-middle :
    (lo hi : ℕ) (before after : List FreeNode) (b : FreeNode)
    → AllBlocks lo hi (before ++ b ∷ after)
    → IsBlock lo hi b × AllBlocks lo hi (before ++ after)
AllBlocks-middle lo hi [] after b h = (h.0, h.1)
AllBlocks-middle lo hi (x ∷ xs) after b h =
    let r = AllBlocks-middle lo hi xs after b h.1 in (r.0, (h.0, r.1))

-- A block none of whose bytes is free meets no free node.
Apart-of_bytes :
    (lo hi : ℕ) (b : FreeNode) (l : List FreeNode)
    → 0 < b.size
    → Chain lo hi l
    → ((a : ℕ) → inside a b.addr b.size ≡ 1 → occ a l ≡ 0)
    → Apart b.addr b.size l
Apart-of_bytes lo hi b [] pos c h = tt
Apart-of_bytes lo hi b (n ∷ rest) pos c h = (
  ground (arith, h b.addr, h n.addr),
  Apart-of_bytes (n.addr + n.size) hi b rest pos c.5 (λ a i. omega (arith, h a i)),
)

module _ (lo hi : ℕ) (fits : hi < 2 ^ 64) where
  live-Apart :
      (c : Client) (before after : List FreeNode) (b : FreeNode)
      → Inv lo hi c
      → c.live ≡ before ++ b ∷ after
      → IsBlock lo hi b × AllBlocks lo hi (before ++ after) × Apart b.addr b.size c.heap.free_list
  live-Apart c before after b v e =
      let r = AllBlocks-middle lo hi before after b (subst (AllBlocks lo hi) e v.blocks) in
      (
        r.0,
        r.1,
        Apart-of_bytes lo hi b c.heap.free_list r.0.1 v.chain
            λ a i. ground (arith, v.shared a, ap (occ a) e, occ-append a before (b ∷ after)),
      )

  alloc-Inv :
      (c : Client) (size p : ℕ) (h : SimpleHeap)
      → 0 < size
      → size % 16 ≡ 0
      → alloc c.heap size ≡ some (p, h)
      → Inv lo hi c
      → Inv lo hi (record { heap = h; live = record { addr = p; size = size } ∷ c.live })
  unfolding alloc
  alloc-Inv c size p h pos whole e v = elim (Option-cases (alloc_from size c.heap.free_list)) [
    | inl gone ↦ absurd (ground arith)
    | inr ((q, l), found) ↦
        let at : q ≡ p = ground arith in
        let out : h ≡ record c.heap { free_list = l } = ground arith in
        let cut = alloc_from-IsCut size pos whole hi fits lo q c.heap.free_list l v.chain found in
        subst
          (λ k. Inv lo hi (record { heap = k; live = record { addr = p; size = size } ∷ c.live }))
          (sym out)
          (record {
            base_eq = v.base_eq;
            end_eq = v.end_eq;
            chain = cut.chain;
            merged =
                alloc_from-HeadMerged size pos whole hi fits lo q c.heap.free_list l v.chain
                  v.merged found;
            blocks = (
              (
                omega (arith, cut.above),
                pos,
                rw (← at) cut.aligned,
                whole,
                omega (arith, cut.below),
              ),
              v.blocks,
            );
            shared = λ a i j. rw (← at) (omega (arith, cut.bytes a, v.shared a i j));
          })
  ]

  free-Inv :
      (c : Client) (before after : List FreeNode) (b : FreeNode) (h : SimpleHeap)
      → c.live ≡ before ++ b ∷ after
      → free c.heap b.addr b.size ≡ some h
      → Inv lo hi c
      → Inv lo hi (record { heap = h; live = before ++ after })
  unfolding free
  free-Inv c before after b h e r v =
      let (blk, rest, apart) = live-Apart c before after b v e in
      let out : h ≡ record c.heap { free_list = insert_free c.heap.free_list b } = ground arith in
      subst (λ k. Inv lo hi (record { heap = k; live = before ++ after })) (sym out)
        (record {
          base_eq = v.base_eq;
          end_eq = v.end_eq;
          chain =
              insert_free-Chain hi fits b blk.1 blk.2 blk.3 blk.4 lo c.heap.free_list blk.0 apart
                v.chain;
          merged =
              insert_free-HeadMerged hi fits b blk.1 blk.2 blk.3 blk.4 lo c.heap.free_list blk.0
                apart v.chain v.merged;
          blocks = rest;
          shared = λ a i j. omega (
            arith,
            occ-insert_free hi fits b blk.1 blk.2 blk.3 blk.4 a lo c.heap.free_list blk.0 apart
                v.chain,
            v.shared a i j,
            ap (occ a) e,
            occ-append a before (b ∷ after),
            occ-append a before after,
          );
        })

  Step-Inv : {c d : Client} → Step c d → Inv lo hi c → Inv lo hi d
  Step-Inv {c} (allocs size p h pos whole e) v = alloc-Inv c size p h pos whole e v
  Step-Inv {c} (frees before after b h e r) v = free-Inv c before after b h e r v

  pub Reach-Inv : {c d : Client} → Inv lo hi c → Reach c d → Inv lo hi d
  Reach-Inv v here = v
  Reach-Inv v (next r s) = Step-Inv s (Reach-Inv v r)

  -- Giving back a live block never fails.
  pub free_live :
      (c : Client) (before after : List FreeNode) (b : FreeNode)
      → Inv lo hi c
      → c.live ≡ before ++ b ∷ after
      → free c.heap b.addr b.size
        ≡ some (record c.heap { free_list = insert_free c.heap.free_list b })
  unfolding free
  free_live c before after b v e =
      let (blk, rest, apart) = live-Apart c before after b v e in
      ground (arith, v.base_eq, v.end_eq)

  -- If every byte is in a free node, the list is one node.
  is_whole_of_bytes :
      (h : SimpleHeap) (l : List FreeNode)
      → lo < hi
      → h.base ≡ lo
      → h.end_addr ≡ hi
      → Chain lo hi l
      → HeadMerged lo hi l
      → ((a : ℕ) → lo ≤ a → a < hi → occ a l ≡ 1)
      → is_whole h l ≡ true
  unfolding is_whole
  is_whole_of_bytes h [] pos be ee c m all = absurd (omega (arith, all lo))
  is_whole_of_bytes h (n ∷ rest) pos be ee c m all =
      let first : n.addr ≡ lo = ground (arith, all lo, occ_below lo (n.addr + n.size) hi rest) in
      let last : n.addr + n.size ≡ hi = ground (
        arith,
        all (n.addr + n.size),
        m first,
        occ_below (n.addr + n.size) (n.addr + n.size + 1) hi rest,
      ) in
      ground arith

  pub destroy_of_Inv : (c : Client) → lo < hi → Inv lo hi c → c.live ≡ [] → destroy c.heap ≡ some tt
  unfolding destroy
  destroy_of_Inv c pos v none_live = rw (
      is_whole_of_bytes c.heap c.heap.free_list pos v.base_eq v.end_eq v.chain v.merged
        λ a i j. omega (arith, v.shared a i j, ap (occ a) none_live))

-- A new heap is one node, and nobody holds a block.
pub init-Inv :
    (base len : ℕ) (h : SimpleHeap)
    → base % 16 ≡ 0
    → base + len < 2 ^ 64
    → init base len ≡ some h
    → Inv base (base + len) (record { heap = h; live = [] })
unfolding init insert_free
init-Inv base len h al fits e =
    let out : h ≡ record {
      base = base;
      end_addr = u64 (base + len);
      free_list = record { addr = base; size = len } ∷ [];
    } =
      ground arith in
    subst (λ k. Inv base (base + len) (record { heap = k; live = [] })) (sym out)
      (record {
        base_eq = refl;
        end_eq = omega arith;
        chain = ground arith;
        merged = λ _. tt;
        blocks = tt;
        shared = λ a i j. ground arith;
      })
