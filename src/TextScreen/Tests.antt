-- ===== src/TextScreen/Tests.antt =====
-- A screen of blanks, with the cursor in its last line.
use attos.Common.{ℕ, ◌+◌, ◌*◌, ◌<◌, ◌≡◌, List, [], ◌∷◌, arith, length, replicate, length-replicate}
use attos.TextScreen.Screen.{TextScreen, screen_width, screen_height, write}
use attos.TextScreen.Cursor.{IsOn, write-IsOn}

blanks : (cells : List ℕ) × (length cells ≡ screen_width * screen_height)
blanks = (replicate 2000 0x720, length-replicate {A = ℕ} 2000 0x720)

abbrev bottom : TextScreen
bottom = record { x = 78; y = 24; attr = 7; cells = blanks.0; location = 0 }

bottom-IsOn : IsOn bottom
bottom-IsOn = record { column = omega arith; row = omega arith; all_cells = blanks.1 }

write-IsOn_example :
    IsOn (write bottom (65 ∷ 66 ∷ 67 ∷ []))
    × ((write bottom (65 ∷ 66 ∷ 67 ∷ [])).location
        ≡ (write bottom (65 ∷ 66 ∷ 67 ∷ [])).x
          + (write bottom (65 ∷ 66 ∷ 67 ∷ [])).y * screen_width)
    × ((write bottom (65 ∷ 66 ∷ 67 ∷ [])).location < screen_width * screen_height)
write-IsOn_example = write-IsOn bottom (65 ∷ 66 ∷ 67 ∷ []) bottom-IsOn
