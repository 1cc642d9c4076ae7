-- ===== src/Terminal/Scroll.antt =====
-- `terminal_scroll`, `terminal_initialize` and `terminal_clear` of src/kernel/kernel.c: what the
-- cells hold afterwards.
use phantom_os.Prelude.{
  ℕ, zero, suc, ◌+◌, ◌*◌, ◌-◌, ◌≤◌, ◌<◌, ◌≡◌, refl, arith, ◌&&◌, ltb, leb, if◌then◌else◌,
}
use phantom_os.Terminal.{
  Cells, Terminal, vga_width, vga_height, vga_entry, for_loop, clear_line, clear_cells, move_line,
  move_lines, terminal_scroll, terminal_clear, terminal_initialize, initial_color, vga_entry_color,
  color_code,
}

-- The cells from `lo` to `hi` changed to those of `new`.
abbrev splice : (lo hi : ℕ) → Cells → Cells → Cells
splice lo hi new old i = if leb lo i && ltb i hi then new i else old i

clear_line-splice :
    (color y n i : ℕ) (cells : Cells)
    → clear_line color y n cells i
      ≡ splice (y * 80) (y * 80 + n) (λ _. vga_entry b' ' color) cells i
unfolding clear_line for_loop
clear_line-splice color y zero i cells = ground arith
clear_line-splice color y (suc n) i cells = ground (arith, clear_line-splice color y n i cells)

clear_cells-splice :
    (color n i : ℕ) (cells : Cells)
    → clear_cells color n cells i ≡ splice 0 (n * 80) (λ _. vga_entry b' ' color) cells i
unfolding clear_cells for_loop
clear_cells-splice color zero i cells = ground arith
clear_cells-splice color (suc n) i cells =
    let line = clear_line-splice color n 80 i (clear_cells color n cells) in
    let rest = clear_cells-splice color n i cells in ground (arith, line, rest)

move_line-splice :
    (y n i : ℕ) (cells : Cells)
    → n ≤ 80
    → move_line y n cells i ≡ splice (y * 80) (y * 80 + n) (λ j. cells (j + 80)) cells i
unfolding move_line for_loop
move_line-splice y zero i cells h = ground arith
move_line-splice y (suc n) i cells h =
    let here = move_line-splice y n i cells (omega arith) in
    let below = move_line-splice y n ((y + 1) * 80 + n) cells (omega arith) in
    let same : (y + 1) * 80 + n ≡ y * 80 + n + 80 = omega arith in ground (arith, here, below, same)

move_lines-splice :
    (n i : ℕ) (cells : Cells)
    → move_lines n cells i ≡ splice 0 (n * 80) (λ j. cells (j + 80)) cells i
unfolding move_lines for_loop
move_lines-splice zero i cells = ground arith
move_lines-splice (suc n) i cells =
    let line = move_line-splice n 80 i (move_lines n cells) (omega arith) in
    let here = move_lines-splice n i cells in
    let below = move_lines-splice n (i + 80) cells in ground (arith, line, here, below)

-- After `terminal_scroll` each line but the last holds what the line below it held, the last line
-- is blank in the current colour, the cells behind the screen are unchanged, and the cursor stands
-- in the last line.
pub terminal_scroll-lines :
    (t : Terminal)
    → ((x y : ℕ)
        → x < vga_width
        → y < vga_height - 1
        → (terminal_scroll t).buffer (y * vga_width + x) ≡ t.buffer ((y + 1) * vga_width + x))
      × ((x : ℕ)
          → x < vga_width
          → (terminal_scroll t).buffer ((vga_height - 1) * vga_width + x) ≡ vga_entry b' ' t.color)
      × ((i : ℕ) → vga_height * vga_width ≤ i → (terminal_scroll t).buffer i ≡ t.buffer i)
      × ((terminal_scroll t).row ≡ vga_height - 1)
unfolding terminal_scroll
terminal_scroll-lines t =
    let moved = λ (i : ℕ). move_lines-splice 24 i t.buffer in
    let cleared = λ (i : ℕ). clear_line-splice t.color 24 80 i (move_lines 24 t.buffer) in
    (
      (λ x y hx hy.
          let i = y * 80 + x in
          let same : (y + 1) * 80 + x ≡ y * 80 + x + 80 = omega arith in
          ground (arith, moved (y * 80 + x), cleared (y * 80 + x), same)),
      (λ x hx. ground (arith, cleared (24 * 80 + x))),
      (λ i h. ground (arith, moved i, cleared i)),
      refl,
    )

-- After `terminal_clear` every cell of the screen is blank in the current colour, and the cursor
-- stands in the first cell.
terminal_clear-blank :
    (t : Terminal)
    → ((i : ℕ) → i < vga_height * vga_width → (terminal_clear t).buffer i ≡ vga_entry b' ' t.color)
      × ((i : ℕ) → vga_height * vga_width ≤ i → (terminal_clear t).buffer i ≡ t.buffer i)
      × ((terminal_clear t).row ≡ 0)
      × ((terminal_clear t).column ≡ 0)
unfolding terminal_clear
terminal_clear-blank t = (
  (λ i h. ground (arith, clear_cells-splice t.color 25 i t.buffer)),
  (λ i h. ground (arith, clear_cells-splice t.color 25 i t.buffer)),
  refl,
  refl,
)

-- After `terminal_initialize` every cell of the screen is blank in light grey on black, and the
-- cursor stands in the first cell.
terminal_initialize-blank :
    (t : Terminal)
    → ((i : ℕ) → i < vga_height * vga_width → (terminal_initialize t).buffer i ≡ vga_entry b' ' 7)
      × ((i : ℕ) → vga_height * vga_width ≤ i → (terminal_initialize t).buffer i ≡ t.buffer i)
      × ((terminal_initialize t).row ≡ 0)
      × ((terminal_initialize t).column ≡ 0)
      × ((terminal_initialize t).color ≡ 7)
unfolding terminal_initialize initial_color vga_entry_color color_code
terminal_initialize-blank t = (
  (λ i h. ground (arith, clear_cells-splice 7 25 i t.buffer)),
  (λ i h. ground (arith, clear_cells-splice 7 25 i t.buffer)),
  refl,
  refl,
  refl,
)
