-- ===== src/TextScreen/Cells.antt =====
-- The cells of the screen of kernel/text_screen.cpp, one by one.
use attos.Common.{
  ℕ, zero, suc, ◌+◌, ◌*◌, ◌≤◌, ◌<◌, ◌≡◌, ◌≢◌, refl, ◌∙◌, List, [], ◌∷◌, ◌++◌, ◌==◌, arith, length,
  take, drop, set, get_or, u16, length-set, get_or-set_self, get_or-set_ne, length-append,
  length-take, length-drop, Bool-cases, ◌⊎◌, inl, inr,
}
use attos.TextScreen.Screen.{clear_cells, move_up}

pub length-clear_cells :
    (attr i count : ℕ) (cells : List ℕ) → length (clear_cells attr i count cells) ≡ length cells
unfolding clear_cells
length-clear_cells attr i zero cells = refl
length-clear_cells attr i (suc count) cells =
    length-clear_cells attr (suc i) count (set cells i (u16 (attr * 256)))
    ∙ length-set cells i (u16 (attr * 256))

clear_cells_before :
    (attr i count j : ℕ) (cells : List ℕ)
    → j < i
    → get_or (clear_cells attr i count cells) j 0 ≡ get_or cells j 0
unfolding clear_cells
clear_cells_before attr i zero j cells lt = refl
clear_cells_before attr i (suc count) j cells lt =
    clear_cells_before attr (suc i) count j (set cells i (u16 (attr * 256))) (omega arith)
    ∙ get_or-set_ne cells i j (u16 (attr * 256)) 0 (omega arith)

pub clear_cells_within :
    (attr i count j : ℕ) (cells : List ℕ)
    → i ≤ j
    → j < i + count
    → j < length cells
    → get_or (clear_cells attr i count cells) j 0 ≡ u16 (attr * 256)
unfolding clear_cells
clear_cells_within attr i zero j cells lo hi len = absurd (omega arith)
clear_cells_within attr i (suc count) j cells lo hi len = elim (Bool-cases (i == j)) [
  | inl e ↦
      let same : i ≡ j = ground arith in
      clear_cells_before attr (suc i) count j (set cells i (u16 (attr * 256))) (omega arith)
      ∙ (rw same (get_or-set_self cells j (u16 (attr * 256)) 0 len))
  | inr e ↦
      let apart : i ≢ j = ground arith in
      clear_cells_within attr (suc i) count j (set cells i (u16 (attr * 256))) (omega arith)
        (omega arith) (omega (arith, length-set cells i (u16 (attr * 256))))
]

pub clear_cells_outside :
    (attr i count j : ℕ) (cells : List ℕ)
    → (j < i) ⊎ (i + count ≤ j)
    → get_or (clear_cells attr i count cells) j 0 ≡ get_or cells j 0
unfolding clear_cells
clear_cells_outside attr i zero j cells out = refl
clear_cells_outside attr i (suc count) j cells out =
    clear_cells_outside attr (suc i) count j (set cells i (u16 (attr * 256))) (omega (arith, out))
    ∙ get_or-set_ne cells i j (u16 (attr * 256)) 0 (omega (arith, out))

get_or-drop : (n j : ℕ) (cells : List ℕ) → get_or (drop n cells) j 0 ≡ get_or cells (n + j) 0
get_or-drop zero j cells = let e : zero + j ≡ j = omega arith in rw e refl
get_or-drop (suc n) j [] = refl
get_or-drop (suc n) j (c ∷ cells) =
    let e : suc n + j ≡ suc (n + j) = omega arith in rw e (get_or-drop n j cells)

get_or-take_append :
    (n j : ℕ) (cells more : List ℕ)
    → j < n
    → n ≤ length cells
    → get_or (take n cells ++ more) j 0 ≡ get_or cells j 0
get_or-take_append zero j cells more lt len = absurd (omega arith)
get_or-take_append (suc n) j [] more lt len = absurd (omega arith)
get_or-take_append (suc n) zero (c ∷ cells) more lt len = refl
get_or-take_append (suc n) (suc j) (c ∷ cells) more lt len =
    get_or-take_append n j cells more (omega arith) (omega arith)

pub length-move_up : (cells : List ℕ) → length cells ≡ 2000 → length (move_up cells) ≡ 2000
unfolding move_up
length-move_up cells len = omega (
  arith,
  length-append (take 1920 (drop 80 cells)) (drop 1920 cells),
  length-take 1920 (drop 80 cells),
  length-drop 80 cells,
  length-drop 1920 cells,
)

pub get_or-move_up :
    (cells : List ℕ) (j : ℕ)
    → length cells ≡ 2000
    → j < 1920
    → get_or (move_up cells) j 0 ≡ get_or cells (80 + j) 0
unfolding move_up
get_or-move_up cells j len lt =
    get_or-take_append 1920 j (drop 80 cells) (drop 1920 cells) lt
      (omega (arith, length-drop 80 cells))
    ∙ get_or-drop 80 j cells
