-- ===== src/Terminal.antt =====
-- The VGA text terminal of src/kernel/kernel.c. A cell is addressed by its index; a write outside
-- the 80 × 25 cells of the screen is a fault, `none`.
pub mod Scroll
pub mod Cursor
mod Tests
use phantom_os.Prelude.{
  ℕ, zero, suc, ◌+◌, ◌*◌, ◌-◌, ◌%◌, Option, none, some, List, [], ◌∷◌, ◌==◌, ltb, leb,
  if◌then◌else◌, ◌>>=◌,
}
use phantom_os.CString.{Text}
use phantom_os.FileSystem.{update}

abbrev pub vga_width : ℕ
vga_width = 80

abbrev pub vga_height : ℕ
vga_height = 25

abbrev pub Cells : Type 0
Cells = ℕ → ℕ

pub record Terminal : Type 0 where
  pub row : ℕ
  pub column : ℕ
  pub color : ℕ
  pub buffer : Cells

pub data VgaColor : Type 0 where
  vga_black : VgaColor
  vga_blue : VgaColor
  vga_green : VgaColor
  vga_cyan : VgaColor
  vga_red : VgaColor
  vga_magenta : VgaColor
  vga_brown : VgaColor
  vga_light_grey : VgaColor
  vga_dark_grey : VgaColor
  vga_light_blue : VgaColor
  vga_light_green : VgaColor
  vga_light_cyan : VgaColor
  vga_light_red : VgaColor
  vga_light_magenta : VgaColor
  vga_light_brown : VgaColor
  vga_white : VgaColor

-- The number of a colour.
unfoldable pub color_code : VgaColor → ℕ
color_code vga_black = 0
color_code vga_blue = 1
color_code vga_green = 2
color_code vga_cyan = 3
color_code vga_red = 4
color_code vga_magenta = 5
color_code vga_brown = 6
color_code vga_light_grey = 7
color_code vga_dark_grey = 8
color_code vga_light_blue = 9
color_code vga_light_green = 10
color_code vga_light_cyan = 11
color_code vga_light_red = 12
color_code vga_light_magenta = 13
color_code vga_light_brown = 14
color_code vga_white = 15

-- `fg | bg << 4`
unfoldable pub vga_entry_color : VgaColor → VgaColor → ℕ
vga_entry_color fg bg = color_code fg + color_code bg * 16

-- `uc | color << 8`, on bytes.
abbrev pub vga_entry : ℕ → ℕ → ℕ
vga_entry uc color = uc + color * 256

-- `for (i = 0; i < n; i++) body(i);`
unfoldable pub for_loop {ℓ} : {A : Type ℓ} → ℕ → (ℕ → A → A) → A → A
for_loop zero body a = a
for_loop (suc n) body a = body n (for_loop n body a)

unfoldable pub initial_color : ℕ
initial_color = vga_entry_color vga_light_grey vga_black

-- One line of blanks, and the whole screen.
unfoldable pub clear_line : ℕ → ℕ → ℕ → Cells → Cells
clear_line color y n cells =
    for_loop n (λ x c. update c (y * vga_width + x) (vga_entry b' ' color)) cells

unfoldable pub clear_cells : ℕ → ℕ → Cells → Cells
clear_cells color n cells = for_loop n (λ y. clear_line color y vga_width) cells

unfoldable pub terminal_initialize : Terminal → Terminal
terminal_initialize t = record {
  row = 0;
  column = 0;
  color = initial_color;
  buffer = clear_cells initial_color vga_height t.buffer;
}

abbrev pub terminal_setcolor : ℕ → Terminal → Terminal
terminal_setcolor color t = record t { color = color }

unfoldable pub terminal_putentryat : ℕ → ℕ → (x y : ℕ) → Terminal → Option Terminal
terminal_putentryat c color x y t =
    let index = y * vga_width + x in
    if ltb index (vga_height * vga_width)
    then some (record t { buffer = update t.buffer index (vga_entry c color) })
    else none

-- The line below `y` moved into line `y`.
unfoldable pub move_line : ℕ → ℕ → Cells → Cells
move_line y n cells =
    for_loop n (λ x c. update c (y * vga_width + x) (c ((y + 1) * vga_width + x))) cells

unfoldable pub move_lines : ℕ → Cells → Cells
move_lines n cells = for_loop n (λ y. move_line y vga_width) cells

unfoldable pub terminal_scroll : Terminal → Terminal
terminal_scroll t = record t {
  row = vga_height - 1;
  buffer = clear_line t.color (vga_height - 1) vga_width (move_lines (vga_height - 1) t.buffer);
}

-- `if (++terminal_row == VGA_HEIGHT) terminal_scroll();`
unfoldable pub next_row : Terminal → Terminal
next_row t =
    let t1 : Terminal = record t { row = t.row + 1 } in
    if t1.row == vga_height then terminal_scroll t1 else t1

-- `terminal_column = 0;` and the next row.
unfoldable pub new_line : Terminal → Terminal
new_line t = next_row (record t { column = 0 })

-- `(terminal_column + 4) & ~3`
abbrev pub tab_stop : ℕ → ℕ
tab_stop column = (column + 4) - (column + 4) % 4

unfoldable pub tab : Terminal → Terminal
tab t =
    if leb vga_width (tab_stop t.column)
    then new_line t
    else record t { column = tab_stop t.column }

unfoldable pub backspace : Terminal → Option Terminal
backspace t =
    if ltb 0 t.column
    then terminal_putentryat b' ' t.color (t.column - 1) t.row (record t { column = t.column - 1 })
    else some t

unfoldable pub put_plain : ℕ → Terminal → Option Terminal
put_plain c t = do
  t1 ← terminal_putentryat c t.color t.column t.row t
  some (if t1.column + 1 == vga_width then new_line t1 else record t1 { column = t1.column + 1 })

-- The codes 10, 13, 9 and 8 are '\n', '\r', '\t' and '\b'.
unfoldable pub terminal_putchar : ℕ → Terminal → Option Terminal
terminal_putchar c t =
    if c == 10
    then some (new_line t)
    else if c == 13
    then some (record t { column = 0 })
    else if c == 9
    then some (tab t)
    else if c == 8
    then backspace t
    else put_plain c t

unfoldable pub terminal_write : Text → Terminal → Option Terminal
terminal_write [] t = some t
terminal_write (c ∷ s) t = terminal_putchar c t >>= λ t1. terminal_write s t1

-- `terminal_writestring` of a string: `strlen` is its length.
abbrev pub terminal_writestring : Text → Terminal → Option Terminal
terminal_writestring s t = terminal_write s t

unfoldable pub terminal_clear : Terminal → Terminal
terminal_clear t = record t {
  row = 0;
  column = 0;
  buffer = clear_cells t.color vga_height t.buffer;
}
