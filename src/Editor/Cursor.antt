-- ===== src/Editor/Cursor.antt =====
-- The cursor of src/kernel/editor.c.
use phantom_os.Prelude.{
  ℕ, ◌+◌, ◌-◌, ◌≤◌, ◌<◌, ◌≡◌, refl, arith, true, false, ltb, leb, ◌==◌, if◌then◌else◌, some, length,
  min,
}
use phantom_os.CString.{ℤ}
use phantom_os.Editor.{Editor, max_lines, add_clamped, scroll_view, editor_move_cursor}
use phantom_os.Editor.Edit.{FitsRows, IsEditor}

-- The cursor stands in one of the 23 lines of the view.
abbrev pub IsVisible : Editor → Type 0
IsVisible e = (e.view_start_line ≤ e.cursor_y) × (e.cursor_y < e.view_start_line + 23)

scroll_view_lem : (view y : ℕ) → (scroll_view view y ≤ y) × (y < scroll_view view y + 23)
unfolding scroll_view
scroll_view_lem view y = (ground arith, ground arith)

-- The cursor may stand anywhere before the move.
pub move_cursor_lem :
    (dx dy : ℤ) (e : Editor)
    → 0 < e.line_count
    → e.line_count ≤ max_lines
    → FitsRows e.buffer
    → (e' : Editor) × (editor_move_cursor dx dy e ≡ some e')
      × IsEditor e'
      × IsVisible e'
      × (e'.buffer ≡ e.buffer)
      × (e'.line_count ≡ e.line_count)
unfolding editor_move_cursor
move_cursor_lem dx dy e lines_min lines_max rows =
    let y0 = add_clamped e.cursor_y dy in
    let y = if leb e.line_count y0 then e.line_count - 1 else y0 in
    let some_line : (e.line_count == 0) ≡ false = ground (arith, lines_min) in
    let in_text : y < e.line_count = ground (arith, lines_min) in
    let inside : ltb y max_lines ≡ true = ground (arith, in_text, lines_max) in
    (
      record e {
        cursor_y = y;
        cursor_x = min (add_clamped e.cursor_x dx) (length (e.buffer y));
        view_start_line = scroll_view e.view_start_line y;
      },
      rw some_line (rw inside refl),
      record {
        lines_min = lines_min;
        lines_max = lines_max;
        row_bound = in_text;
        column_bound = omega arith;
        rows = rows;
      },
      scroll_view_lem e.view_start_line y,
      refl,
      refl,
    )

-- For every step `editor_move_cursor` ends without a fault with the cursor within the text and the
-- view, and changes neither the text nor the number of lines.
pub editor_move_cursor-IsEditor :
    (dx dy : ℤ) (e : Editor)
    → IsEditor e
    → (e' : Editor) × (editor_move_cursor dx dy e ≡ some e')
      × IsEditor e'
      × IsVisible e'
      × (e'.buffer ≡ e.buffer)
      × (e'.line_count ≡ e.line_count)
editor_move_cursor-IsEditor dx dy e ok = move_cursor_lem dx dy e ok.lines_min ok.lines_max ok.rows
