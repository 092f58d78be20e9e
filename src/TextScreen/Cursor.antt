-- ===== src/TextScreen/Cursor.antt =====
-- The cursor of kernel/text_screen.cpp and the cells that it writes.
use attos.Common.{
  ℕ, zero, suc, ◌+◌, ◌*◌, ◌%◌, ◌≤◌, ◌<◌, ◌≡◌, ◌≢◌, refl, ◌∙◌, List, [], ◌∷◌, false, ◌==◌,
  if◌then◌else◌, arith, length, set, get_or, u16, length-set, get_or-set_self, get_or-set_ne,
  Bool-cases, ◌⊎◌, inl, inr, subst, ltb,
}
use attos.TextScreen.Screen.{
  TextScreen, screen_width, screen_height, set_cursor_location, set_cursor, clear_line, clear_lines,
  clear, move_up, newline, put, put_all, write,
}
use attos.TextScreen.Cells.{
  length-clear_cells, clear_cells_within, clear_cells_outside, length-move_up, get_or-move_up,
}

-- The cursor stands on the screen, which has 80 times 25 cells.
pub record IsOn (s : TextScreen) : Type 0 where
  pub column : s.x < screen_width
  pub row : s.y < screen_height
  pub all_cells : length s.cells ≡ screen_width * screen_height

newline-IsOn :
    (s : TextScreen)
    → s.y < screen_height
    → length s.cells ≡ screen_width * screen_height
    → IsOn (newline s)
unfolding newline clear_line
newline-IsOn s row all_cells = elim (Bool-cases (s.y + 1 == screen_height)) [
  | inl e ↦ rw e (record {
    column = omega arith;
    row = omega arith;
    all_cells =
        length-clear_cells s.attr 1920 80 (move_up s.cells) ∙ length-move_up s.cells all_cells;
  })
  | inr e ↦ rw e (record { column = omega arith; row = ground (arith, row); all_cells = all_cells })
]

-- `put` of a character that is none of the two that only move the cursor.
put_printed : (s : TextScreen) (c : ℕ) → TextScreen
put_printed s c = record s {
  x = s.x + 1;
  cells = set s.cells (s.x + s.y * screen_width) (u16 (s.attr * 256 + c % 256));
}

put_lem :
    (s : TextScreen) (c : ℕ)
    → c ≢ 13
    → c ≢ 10
    → put s c ≡ (if s.x + 1 == screen_width then newline (put_printed s c) else put_printed s c)
unfolding put put_printed
put_lem s c n1 n2 = ground arith

put-IsOn : (s : TextScreen) (c : ℕ) → IsOn s → IsOn (put s c)
unfolding put
put-IsOn s c v =
    let cell : ℕ = s.x + s.y * screen_width in
    let cells : List ℕ = set s.cells cell (u16 (s.attr * 256 + c % 256)) in
    let size : length cells ≡ screen_width * screen_height =
      length-set s.cells cell (u16 (s.attr * 256 + c % 256)) ∙ v.all_cells in
    elim (Bool-cases (c == 13)) [
      | inl e ↦ rw e (record { column = omega arith; row = v.row; all_cells = v.all_cells })
      | inr e ↦ elim (Bool-cases (c == 10)) [
        | inl e1 ↦ rw (e, e1) (newline-IsOn s v.row v.all_cells)
        | inr e1 ↦ elim (Bool-cases (s.x + 1 == screen_width)) [
          | inl e2 ↦
              rw (e, e1, e2) (newline-IsOn (record s { x = s.x + 1; cells = cells }) v.row size)
          | inr e2 ↦
              rw (e, e1, e2)
                (record { column = ground (arith, v.column); row = v.row; all_cells = size })
        ]
      ]
    ]

put_all-IsOn : (s : TextScreen) (cs : List ℕ) → IsOn s → IsOn (put_all s cs)
unfolding put_all
put_all-IsOn s [] v = v
put_all-IsOn s (c ∷ cs) v = put_all-IsOn (put s c) cs (put-IsOn s c v)

-- Whatever is written with the cursor on a screen of 80 by 25 cells, the cursor stays on it, no cell is added or
-- lost, and the hardware cursor is where the cursor is.
pub write-IsOn :
    (s : TextScreen) (cs : List ℕ)
    → IsOn s
    → IsOn (write s cs)
      × ((write s cs).location ≡ (write s cs).x + (write s cs).y * screen_width)
      × ((write s cs).location < screen_width * screen_height)
unfolding write set_cursor set_cursor_location
write-IsOn s cs v =
    let w = put_all-IsOn s cs v in
    (
      record { column = w.column; row = w.row; all_cells = w.all_cells },
      omega (arith, w.column, w.row),
      omega (arith, w.column, w.row),
    )

-- A newline on the last line moves every line up by one and leaves a blank last line, with the cursor at its
-- beginning; on any other line it moves the cursor alone.
pub newline_lem :
    (s : TextScreen)
    → IsOn s
    → ((newline s).x ≡ 0)
      × ((s.y < 24) × ((newline s).y ≡ s.y + 1) × ((newline s).cells ≡ s.cells)
          ⊎ ((s.y ≡ 24)
              × ((newline s).y ≡ 24)
              × ((j : ℕ) → j < 1920 → get_or (newline s).cells j 0 ≡ get_or s.cells (80 + j) 0)
              × ((j : ℕ)
                  → 1920 ≤ j
                  → j < 2000
                  → get_or (newline s).cells j 0 ≡ u16 (s.attr * 256))))
unfolding newline clear_line
newline_lem s v = elim (Bool-cases (s.y + 1 == screen_height)) [
  | inl e ↦ rw e (
    refl,
    inr (
      ground (arith, e),
      refl,
      (λ j lt.
          clear_cells_outside s.attr 1920 80 j (move_up s.cells) (inl lt)
          ∙ get_or-move_up s.cells j v.all_cells lt),
      λ j lo hi.
          clear_cells_within s.attr 1920 80 j (move_up s.cells) lo (omega arith)
            (omega (arith, length-move_up s.cells v.all_cells)),
    ),
  )
  | inr e ↦ rw e (refl, inl (ground (arith, e, v.row), refl, refl))
]

-- A printed character, except in the last cell of the screen, appears at the cursor with the attribute of the
-- screen; no other cell changes, and the cursor moves on by one cell.
pub put_printed_lem :
    (s : TextScreen) (c : ℕ)
    → IsOn s
    → c ≢ 13
    → c ≢ 10
    → s.x + s.y * screen_width < 1999
    → (get_or (put s c).cells (s.x + s.y * screen_width) 0 ≡ u16 (s.attr * 256 + c % 256))
      × ((j : ℕ) → s.x + s.y * screen_width ≢ j → get_or (put s c).cells j 0 ≡ get_or s.cells j 0)
      × ((put s c).x + (put s c).y * screen_width ≡ s.x + s.y * screen_width + 1)
unfolding newline
put_printed_lem s c v n1 n2 lt = elim (Bool-cases (s.x + 1 == screen_width)) [
  | inl e ↦
      let not_last : (s.y + 1 == screen_height) ≡ false = ground (arith, v.column, v.row, e) in
      rw (put_lem s c n1 n2) (
        unfold put_printed in
        rw (e, not_last)
          (
            get_or-set_self s.cells (s.x + s.y * screen_width) (u16 (s.attr * 256 + c % 256)) 0
                (omega (arith, v.all_cells)),
            (λ j n.
                get_or-set_ne s.cells (s.x + s.y * screen_width) j (u16 (s.attr * 256 + c % 256)) 0
                  n),
            ground (arith, e),
          ))
  | inr e ↦ rw (put_lem s c n1 n2) (
      unfold put_printed in
      rw e (
        get_or-set_self s.cells (s.x + s.y * screen_width) (u16 (s.attr * 256 + c % 256)) 0
            (omega (arith, v.all_cells)),
        (λ j n.
            get_or-set_ne s.cells (s.x + s.y * screen_width) j (u16 (s.attr * 256 + c % 256)) 0 n),
        omega arith,
      ))
]

IsBlank : TextScreen → ℕ → ℕ → Type 0
IsBlank s attr n = (j : ℕ) → j < n → get_or s.cells j 0 ≡ u16 (attr * 256)

clear_line-IsBlank :
    (s : TextScreen) (i : ℕ)
    → length s.cells ≡ 2000
    → i < 25
    → IsBlank s s.attr (i * 80)
    → IsBlank (clear_line s i) s.attr (suc i * 80)
unfolding clear_line IsBlank
clear_line-IsBlank s i len lt blank j below = elim (Bool-cases (ltb j (i * 80))) [
  | inl e ↦
      let before : j < i * 80 = ground arith in
      clear_cells_outside s.attr (i * 80) 80 j s.cells (inl before) ∙ blank j before
  | inr e ↦
      let after : i * 80 ≤ j = ground arith in
      clear_cells_within s.attr (i * 80) 80 j s.cells after (omega arith) (omega (arith, len))
]

clear_lines-IsBlank :
    (n i : ℕ) (s : TextScreen)
    → length s.cells ≡ 2000
    → i + n ≡ 25
    → IsBlank s s.attr (i * 80)
    → IsBlank (clear_lines s i n) s.attr 2000
      × ((clear_lines s i n).attr ≡ s.attr)
      × (length (clear_lines s i n).cells ≡ 2000)
unfolding clear_lines clear_line
clear_lines-IsBlank zero i s len e blank =
    let all : i * 80 ≡ 2000 = omega arith in (subst (IsBlank s s.attr) all blank, refl, len)
clear_lines-IsBlank (suc n) i s len e blank =
    let next : TextScreen = clear_line s i in
    let size : length next.cells ≡ 2000 =
      unfold clear_line in length-clear_cells s.attr (i * 80) 80 s.cells ∙ len in
    let same : next.attr ≡ s.attr = unfold clear_line in refl in
    let first : IsBlank next next.attr (suc i * 80) =
      rw same (clear_line-IsBlank s i len (omega arith) blank) in
    let rest = clear_lines-IsBlank n (suc i) next size (omega arith) first in
    (subst (λ a. IsBlank (clear_lines next (suc i) n) a 2000) same rest.0, rest.1 ∙ same, rest.2)

-- A cleared screen is blank in every cell, with the cursor, and the hardware cursor, in the first.
pub clear_lem :
    (s : TextScreen)
    → length s.cells ≡ screen_width * screen_height
    → IsOn (clear s)
      × ((j : ℕ) → j < 2000 → get_or (clear s).cells j 0 ≡ u16 (s.attr * 256))
      × ((clear s).location ≡ 0)
unfolding clear set_cursor set_cursor_location
clear_lem s len =
    let blank =
      clear_lines-IsBlank 25 0 s len (omega arith)
        (unfold IsBlank in λ j lt. absurd (omega arith)) in
    (
      record { column = omega arith; row = omega arith; all_cells = blank.2 },
      (unfold IsBlank in blank.0),
      omega arith,
    )
