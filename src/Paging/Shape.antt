-- ===== src/Paging/Shape.antt =====
-- The shape of the tables: each page that is a table has one place in the tree.
use attos.Common.{
  ℕ, suc, ◌+◌, ◌*◌, ◌%◌, ◌^◌, ◌<◌, ◌≡◌, ◌≢◌, ◌==◌, true, false, if◌then◌else◌, some, arith,
}
use attos.Paging.Address.{page_size, is_present, is_pagesize, table_flags, check_bits}
use attos.Paging.Tables.{Words, store, zero_page, entry_at, table_entry, PageSource, Memory}

-- A table of level 1 to 4, and the part of the addresses that lead to it.
pub data Place : Type 0 where
  unused : Place
  table : ℕ → ℕ → Place

-- What a source of pages promises: a page that is not in use, at an address that an entry can hold.
pub record IsPageSource {S : Type 0} (source : PageSource S) (used : S → ℕ → Type 0) : Type 0 where
  pub fresh : (s s' : S) (p : ℕ) → source.alloc_page s ≡ some (p, s') → ¬ used s p
  pub aligned :
      (s s' : S) (p : ℕ) → source.alloc_page s ≡ some (p, s') → (p % page_size ≡ 0) × (p < 2 ^ 52)
  pub taken : (s s' : S) (p : ℕ) → source.alloc_page s ≡ some (p, s') → used s' p
  pub keeps : (s s' : S) (p q : ℕ) → source.alloc_page s ≡ some (p, s') → used s q → used s' q

pub record IsShaped {S : Type 0} (used : S → ℕ → Type 0) (place : ℕ → Place) (m : Memory S)
    : Type 0 where
  pub in_use : (p l v : ℕ) → place p ≡ table l v → used m.pages p
  pub on_page : (p l v : ℕ) → place p ≡ table l v → (p % page_size ≡ 0) × (p < 2 ^ 52)
  pub child :
      (p l v i : ℕ)
      → place p ≡ table (suc (suc l)) v
      → i < 512
      → is_present (m.words (entry_at p i)) ≡ true
      → is_pagesize (m.words (entry_at p i)) ≡ false
      → place (table_entry (m.words (entry_at p i))) ≡ table (suc l) (v * 512 + i)
  pub top :
      (p v i : ℕ)
      → place p ≡ table 4 v
      → i < 512
      → is_present (m.words (entry_at p i)) ≡ true
      → is_pagesize (m.words (entry_at p i)) ≡ false

-- Tables stay where they are, and entries that are present stay as they are.
abbrev pub Grows : (ℕ → Place) → (ℕ → Place) → Type 0
Grows place place' = (p l v : ℕ) → place p ≡ table l v → place' p ≡ table l v

abbrev pub Keeps : (ℕ → Place) → Words → Words → Type 0
Keeps place words words' =
    (p l v i : ℕ)
    → place p ≡ table l v
    → i < 512
    → is_present (words (entry_at p i)) ≡ true
    → words' (entry_at p i) ≡ words (entry_at p i)

pub entry_at_apart :
    (p q i j : ℕ)
    → p % page_size ≡ 0
    → q % page_size ≡ 0
    → i < 512
    → j < 512
    → entry_at p i ≡ entry_at q j
    → (p ≡ q) × (i ≡ j)
entry_at_apart p q i j ap' aq hi hj e = (omega arith, omega arith)

abbrev pub place_with : (ℕ → Place) → ℕ → Place → ℕ → Place
place_with place t pl q = if q == t then pl else place q

-- The entry of a table as it is written, read again.
pub table_flags_entry :
    (type t : ℕ)
    → t % page_size ≡ 0
    → t < 2 ^ 52
    → (is_present (t + table_flags type) ≡ true)
      × (is_pagesize (t + table_flags type) ≡ false)
      × (table_entry (t + table_flags type) ≡ t)
table_flags_entry type t al lt = (ground arith, ground arith, ground arith)

pub no_pagesize :
    (type entry : ℕ) → check_bits entry ≡ check_bits (table_flags type) → is_pagesize entry ≡ false
no_pagesize type entry e = ground arith

-- Words of a memory in which a fresh page has been entered.
abbrev pub entered : Words → ℕ → ℕ → ℕ → Words
entered words t parent value = store (zero_page words t) parent value

pub entered_other :
    (words : Words) (t parent value q j : ℕ)
    → t % page_size ≡ 0
    → q % page_size ≡ 0
    → j < 512
    → q ≢ t
    → entry_at q j ≢ parent
    → entered words t parent value (entry_at q j) ≡ words (entry_at q j)
entered_other words t parent value q j at aq hj n1 n2 = ground arith

pub entered_fresh :
    (words : Words) (t p i value j : ℕ)
    → t % page_size ≡ 0
    → p % page_size ≡ 0
    → i < 512
    → j < 512
    → p ≢ t
    → is_present (entered words t (entry_at p i) value (entry_at t j)) ≡ false
entered_fresh words t p i value j at aq hi hj n = ground arith
