-- ===== src/Terminal/Tests.antt =====
-- Runs of the terminal.
use phantom_os.Prelude.{ℕ, ◌+◌, ◌*◌, ◌-◌, ◌≤◌, ◌<◌, ◌≡◌, arith}
use phantom_os.Terminal.{Terminal, vga_width, vga_height, vga_entry, terminal_scroll}
use phantom_os.Terminal.Scroll.{terminal_scroll-lines}
use phantom_os.Terminal.Cursor.{IsOnScreen}

-- The cursor in the last cell of a screen that counts its cells.
abbrev last_cell : Terminal
last_cell = record { row = 24; column = 79; color = 7; buffer = λ i. i }

last_cell-IsOnScreen : IsOnScreen last_cell
last_cell-IsOnScreen = record { row_bound = omega arith; column_bound = omega arith }

terminal_scroll-lines_example :
    ((x y : ℕ)
      → x < vga_width
      → y < vga_height - 1
      → (terminal_scroll last_cell).buffer (y * vga_width + x) ≡ (y + 1) * vga_width + x)
    × ((x : ℕ)
        → x < vga_width
        → (terminal_scroll last_cell).buffer ((vga_height - 1) * vga_width + x) ≡ vga_entry b' ' 7)
    × ((i : ℕ) → vga_height * vga_width ≤ i → (terminal_scroll last_cell).buffer i ≡ i)
    × ((terminal_scroll last_cell).row ≡ vga_height - 1)
terminal_scroll-lines_example = terminal_scroll-lines last_cell
