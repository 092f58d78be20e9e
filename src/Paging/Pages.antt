-- ===== src/Paging/Pages.antt =====
-- Pages of the three sizes, and addresses on and off a range of them, in kernel/mm.cpp.
use attos.Common.{ℕ, suc, ◌+◌, ◌*◌, ◌%◌, ◌^◌, ◌≤◌, ◌<◌, ◌≡◌, arith, Bool-cases, inl, inr, subst}
use attos.Paging.Address.{memory_type_page_size, is_1gb, is_2mb}
use attos.Paging.Reach.{SameWay}

-- The three page sizes.
pub data IsSize : ℕ → Type 0 where
  small : IsSize (2 ^ 12)
  middle : IsSize (2 ^ 21)
  large : IsSize (2 ^ 30)

pub memory_type_page_size-IsSize : (type : ℕ) → IsSize (memory_type_page_size type)
memory_type_page_size-IsSize type = elim (Bool-cases (is_1gb type)) [
  | inl l ↦ subst IsSize (ground arith) large
  | inr s ↦ elim (Bool-cases (is_2mb type)) [
    | inl l ↦ subst IsSize (ground arith) middle
    | inr t ↦ subst IsSize (ground arith) small
  ]
]

pub same_page :
    (size virt off : ℕ)
    → IsSize size
    → virt % size ≡ 0
    → off < size
    → SameWay size virt (virt + off)
same_page _ virt off small al lt = omega arith
same_page _ virt off middle al lt = omega arith
same_page _ virt off large al lt = omega arith

-- A byte of the first page is on none of the pages after it.
pub later_page :
    (size virt off count k : ℕ)
    → IsSize size
    → virt % size ≡ 0
    → off < size
    → suc count * size ≤ 2 ^ 48
    → k < count
    → ¬ SameWay size (virt + size + k * size) (virt + off)
later_page _ virt off count k small al lt fits hk = λ e. omega (arith, e)
later_page _ virt off count k middle al lt fits hk = λ e. omega (arith, e)
later_page _ virt off count k large al lt fits hk = λ e. omega (arith, e)

-- A byte on a later page is not on the first.
pub first_page :
    (size virt off count : ℕ)
    → IsSize size
    → virt % size ≡ 0
    → off < suc count * size
    → ¬ (off < size)
    → suc count * size ≤ 2 ^ 48
    → ¬ SameWay size virt (virt + off)
first_page _ virt off count small al lt past fits = λ e. omega (arith, e, past)
first_page _ virt off count middle al lt past fits = λ e. omega (arith, e, past)
first_page _ virt off count large al lt past fits = λ e. omega (arith, e, past)

pub size_pos : (size : ℕ) → IsSize size → 0 < size
size_pos _ small = omega arith
size_pos _ middle = omega arith
size_pos _ large = omega arith

pub next_aligned : (size virt : ℕ) → IsSize size → virt % size ≡ 0 → (virt + size) % size ≡ 0
next_aligned _ virt small al = omega arith
next_aligned _ virt middle al = omega arith
next_aligned _ virt large al = omega arith

-- An address on none of the pages of a range.
abbrev pub Outside : ℕ → ℕ → ℕ → ℕ → Type 0
Outside size count virt virt' = (k : ℕ) → k < count → ¬ SameWay size (virt + k * size) virt'

-- The range without its first page.
pub Outside-rest :
    (size count virt virt' : ℕ)
    → Outside size (suc count) virt virt'
    → Outside size count (virt + size) virt'
Outside-rest size count virt virt' out =
    λ k hk. subst (λ x. ¬ SameWay size x virt') (ground arith) (out (suc k) (omega (arith, hk)))

-- The offset of a byte in the page that starts at `virt`.
pub page_offset :
    (size virt off : ℕ) → IsSize size → virt % size ≡ 0 → off < size → (virt + off) % size ≡ off
page_offset _ virt off small al lt = omega arith
page_offset _ virt off middle al lt = omega arith
page_offset _ virt off large al lt = omega arith
