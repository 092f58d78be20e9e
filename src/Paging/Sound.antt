-- ===== src/Paging/Sound.antt =====
-- `memory_manager_base` of kernel/mm.cpp: the mappings and the tables agree.
use attos.Common.{ℕ, ◌+◌, ◌*◌, ◌%◌, ◌≤◌, ◌<◌, ◌≡◌, arith}
use attos.Paging.Address.{memory_type_page_size}
use attos.Paging.Tables.{Words}
use attos.Paging.Shape.{Place, table, IsShaped}
use attos.Paging.Walk.{Walks}
use attos.Paging.Pages.{IsSize, small, middle, large, Outside}
use attos.Paging.Manager.{Mapping, Manager}
use attos.Paging.Mappings.{IsHalf, end_of, Apart, Chain}

-- A mapping is whole pages, and its addresses lead to pages of its size.
pub record IsMapping (words : Words) (top : ℕ) (m : Mapping) : Type 0 where
  pub address_aligned : m.address % memory_type_page_size m.type ≡ 0
  pub length_aligned : m.length % memory_type_page_size m.type ≡ 0
  pub leads :
      (off : ℕ)
      → off < m.length
      → (r : ℕ) × Walks words top (m.address + off) (memory_type_page_size m.type) r

pub record IsSound {S : Type 0} (used : S → ℕ → Type 0) (base hi : ℕ) (place : ℕ → Place)
    (mm : Manager S) : Type 0 where
  pub shaped : IsShaped used place mm.memory
  pub top : place mm.pml4 ≡ table 4 0
  pub mapped : Chain (IsMapping mm.memory.words mm.pml4) base hi mm.mappings

-- Addresses of one half that lie in different mappings go different ways.
pub Apart-Outside :
    (base hi size : ℕ) (n m : Mapping) (off : ℕ)
    → IsHalf base hi
    → IsSize size
    → n.address % size ≡ 0
    → base ≤ n.address
    → end_of n ≤ hi
    → base ≤ m.address
    → end_of m ≤ hi
    → Apart n m
    → off < m.length
    → (count : ℕ) → count * size ≡ n.length
    → Outside size count n.address (m.address + off)
Apart-Outside base hi _ n m off half small al bn tn bm tm apart lt count whole =
    λ k hk e. ground (arith, e, hk)
Apart-Outside base hi _ n m off half middle al bn tn bm tm apart lt count whole =
    λ k hk e. ground (arith, e, hk)
Apart-Outside base hi _ n m off half large al bn tn bm tm apart lt count whole =
    λ k hk e. ground (arith, e, hk)
