-- ===== src/Editor/Draw.antt =====
-- `editor_draw` of src/kernel/editor.c.
use phantom_os.Prelude.{
  ℕ, zero, suc, ◌+◌, ◌-◌, ◌/◌, ◌%◌, ◌&&◌, not, Bool, true, false, Option, none, some, [], ◌∷◌, ◌++◌,
  ltb, leb, if◌then◌else◌, length, take, replicate, ◌>>=◌,
}
use phantom_os.CString.{Text, codes}
use phantom_os.Terminal.{
  vga_black, vga_white, vga_dark_grey, Terminal, vga_entry_color, terminal_setcolor,
  terminal_putentryat, terminal_clear,
}
use phantom_os.Editor.{EditorMode, normal, insert, command, exiting, Editor, max_lines}

-- The characters of a text, from the cell `x` of the line `y` on.
unfoldable pub put_text : Text → (color x y : ℕ) → Terminal → Option Terminal
put_text [] color x y t = some t
put_text (c ∷ s) color x y t =
    terminal_putentryat c color x y t >>= λ t1. put_text s color (suc x) y t1

-- The `left` rightmost characters of the number, before those of `acc`.
unfoldable pub num_str : (left num : ℕ) → Text → Text
num_str zero num acc = acc
num_str (suc left) num acc =
    num_str left (num / 10) ((if ltb 0 num then b'0' + num % 10 else b' ') ∷ acc)

abbrev pub grey_on_black : ℕ
grey_on_black = vga_entry_color vga_dark_grey vga_black

abbrev pub white_on_black : ℕ
white_on_black = vga_entry_color vga_white vga_black

abbrev pub black_on_white : ℕ
black_on_white = vga_entry_color vga_black vga_white

-- One line of the text, with its number.
unfoldable pub draw_row : ℕ → Editor → Terminal → Option Terminal
draw_row y e t =
    let line = y + e.view_start_line in
    if ltb line max_lines
    then (put_text (num_str 4 (line + 1) []) grey_on_black 0 y (terminal_setcolor grey_on_black t)
        >>= λ t1.
            put_text (take 75 (e.buffer line)) white_on_black 5 y
              (terminal_setcolor white_on_black t1))
    else none

unfoldable pub draw_rows : (left y : ℕ) → Editor → Terminal → Option Terminal
draw_rows zero y e t = some t
draw_rows (suc left) y e t =
    if ltb (y + e.view_start_line) e.line_count
    then (draw_row y e t >>= λ t1. draw_rows left (suc y) e t1)
    else some t

abbrev pub shown_name : Text → Text
shown_name [] = codes "[No Name]"
shown_name (c ∷ t) = c ∷ t

abbrev pub status_text : Editor → Text
status_text e = if e.modified then codes "[+] " ++ shown_name e.filename else shown_name e.filename

abbrev pub mode_text : EditorMode → Text
mode_text normal = codes "-- NORMAL --"
mode_text insert = codes "-- INSERT --"
mode_text command = codes ":"
mode_text exiting = codes "-- NORMAL --"

-- The line 23; `status` has 80 bytes.
unfoldable pub draw_status : Editor → Terminal → Option Terminal
draw_status e t =
    let mode = mode_text e.mode in
    if ltb (length (status_text e)) 80
    then (put_text (replicate 80 b' ') black_on_white 0 23 (terminal_setcolor black_on_white t)
        >>= λ t1. put_text (status_text e) black_on_white 0 23 t1 >>= λ t2.
            put_text mode black_on_white (80 - length mode) 23 t2)
    else none

abbrev pub is_command : EditorMode → Bool
is_command command = true
is_command normal = false
is_command insert = false
is_command exiting = false

-- The line 24: the command, or the last message.
unfoldable pub draw_bottom : Editor → Terminal → Option Terminal
draw_bottom e t =
    if is_command e.mode
    then (terminal_putentryat b':' white_on_black 0 24 t >>= λ t1.
        put_text e.command_buffer white_on_black 1 24 t1 >>= λ t2.
        terminal_putentryat b'_' white_on_black (length e.command_buffer + 1) 24 t2)
    else put_text e.status_message white_on_black 0 24 t

-- The cursor in the text, where the view shows it.
unfoldable pub draw_cursor : Editor → Terminal → Option Terminal
draw_cursor e t =
    if not (is_command e.mode)
      && (leb e.view_start_line e.cursor_y && ltb (e.cursor_y - e.view_start_line) 23)
    then terminal_putentryat b'_' white_on_black (e.cursor_x + 5) (e.cursor_y - e.view_start_line) t
    else some t

unfoldable pub editor_draw : Editor → Terminal → Option Terminal
editor_draw e t = do
  t ← draw_rows 23 0 e (terminal_clear t)
  t ← draw_status e t
  t ← draw_bottom e t
  draw_cursor e t
