-- ===== src/TextScreen/Screen.antt =====
-- `text_screen` of kernel/text_screen.cpp and text_screen.h: its cursor, the cells of the screen, and the
-- location of the hardware cursor.
use attos.Common.{
  ℕ, zero, suc, ◌+◌, ◌-◌, ◌*◌, ◌/◌, ◌%◌, List, [], ◌∷◌, ◌++◌, ◌==◌, if◌then◌else◌, take, drop, set,
  u16,
}

abbrev pub screen_width : ℕ
screen_width = 80

abbrev pub screen_height : ℕ
screen_height = 25

-- `cells` is what lies at `screen_buffer`, and `location` what the cursor registers hold.
pub record TextScreen : Type 0 where
  pub x : ℕ
  pub y : ℕ
  pub attr : ℕ
  pub cells : List ℕ
  pub location : ℕ

-- `cursor_location(location)`: the two registers hold its high and its low byte.
unfoldable pub set_cursor_location : TextScreen → ℕ → TextScreen
set_cursor_location s location = record s { location = location / 256 % 256 * 256 + location % 256 }

unfoldable pub set_cursor : TextScreen → TextScreen
unfolding set_cursor_location
set_cursor s = set_cursor_location s (u16 (s.x + s.y * screen_width))

-- The constructor.
unfoldable pub init : ℕ → List ℕ → ℕ → TextScreen
init attr cells location = record {
  x = location % screen_width;
  y = location / screen_width;
  attr = attr;
  cells = cells;
  location = location;
}

-- The loop of `clear_line`, over `count` cells from `i` on.
unfoldable pub clear_cells : ℕ → ℕ → ℕ → List ℕ → List ℕ
clear_cells attr i zero cells = cells
clear_cells attr i (suc count) cells =
    clear_cells attr (suc i) count (set cells i (u16 (attr * 256)))

unfoldable pub clear_line : TextScreen → ℕ → TextScreen
clear_line s line = record s {
  cells = clear_cells s.attr (line * screen_width) screen_width s.cells;
}

-- The loop of `clear`, over `count` lines from `i` on.
unfoldable pub clear_lines : TextScreen → ℕ → ℕ → TextScreen
clear_lines s i zero = s
clear_lines s i (suc count) = clear_lines (clear_line s i) (suc i) count

unfoldable pub clear : TextScreen → TextScreen
clear s = set_cursor (record (clear_lines s 0 screen_height) { x = 0; y = 0 })

-- `move_memory` of all lines but the first to the line above.
unfoldable pub move_up : List ℕ → List ℕ
move_up cells =
    let moved = screen_width * (screen_height - 1) in
    take moved (drop screen_width cells) ++ drop moved cells

unfoldable pub newline : TextScreen → TextScreen
newline s =
    let scrolled =
      clear_line (record s { y = screen_height - 1; cells = move_up s.cells })
        (screen_height - 1) in
    if s.y + 1 == screen_height then record scrolled { x = 0 } else record s { x = 0; y = s.y + 1 }

unfoldable pub put : TextScreen → ℕ → TextScreen
put s c =
    let next = record s {
      x = s.x + 1;
      cells = set s.cells (s.x + s.y * screen_width) (u16 (s.attr * 256 + c % 256));
    } in
    if c == 13
    then record s { x = 0 }
    else if c == 10
    then newline s
    else if s.x + 1 == screen_width
    then newline next
    else next

unfoldable pub put_all : TextScreen → List ℕ → TextScreen
put_all s [] = s
put_all s (c ∷ cs) = put_all (put s c) cs

unfoldable pub write : TextScreen → List ℕ → TextScreen
write s data_bytes = set_cursor (put_all s data_bytes)
