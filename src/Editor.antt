-- ===== src/Editor.antt =====
-- The text and the cursor of the editor, src/kernel/editor.h and src/kernel/editor.c. A row of the
-- buffer is the string that it holds. A row index outside the buffer, a row that gets more than 75
-- characters, and a cursor behind the end of its row are faults, `none`. The sums of an `int` do not
-- overflow: they count rows and columns.
pub mod Rows
pub mod Edit
pub mod Cursor
pub mod Backspace
pub mod Files
pub mod Keys
pub mod Draw
pub mod Session
pub mod Opening
pub mod Saving
pub mod Screen
pub mod RoundTrip
pub mod SaveLoad
mod Tests
use phantom_os.Prelude.{
  ℕ, zero, suc, ◌+◌, ◌-◌, Bool, true, false, ◌&&◌, Option, none, some, List, [], ◌∷◌, ◌++◌, ◌==◌,
  ltb, leb, min, if◌then◌else◌, length, take, drop,
}
use phantom_os.CString.{Text, codes, ℤ, pos, negsuc}
use phantom_os.FileSystem.{update}

abbrev pub max_lines : ℕ
max_lines = 50

abbrev pub max_line_length : ℕ
max_line_length = 76

-- `exiting` is the value -1, which signals the end of the editor.
pub data EditorMode : Type 0 where
  normal : EditorMode
  insert : EditorMode
  command : EditorMode
  exiting : EditorMode

abbrev pub Rows : Type 0
Rows = ℕ → Text

-- `command_length` is the length of `command_buffer`.
pub record Editor : Type 0 where
  pub buffer : Rows
  pub line_count : ℕ
  pub cursor_x : ℕ
  pub cursor_y : ℕ
  pub view_start_line : ℕ
  pub mode : EditorMode
  pub filename : Text
  pub modified : Bool
  pub command_buffer : Text
  pub status_message : Text

-- Every field is written.
abbrev pub editor_init : Editor
editor_init = record {
  buffer = λ _. [];
  line_count = 1;
  cursor_x = 0;
  cursor_y = 0;
  view_start_line = 0;
  mode = normal;
  filename = [];
  modified = false;
  command_buffer = [];
  status_message = codes "-- NORMAL --";
}

-- `v += d; if (v < 0) v = 0;`
unfoldable pub add_clamped : ℕ → ℤ → ℕ
add_clamped v (pos d) = v + d
add_clamped v (negsuc d) = v - suc d

-- The view follows the cursor.
unfoldable pub scroll_view : (view y : ℕ) → ℕ
scroll_view view y =
    let view1 = if ltb y view then y else view in if leb (view1 + 23) y then y - 22 else view1

-- Without a line the row index is -1.
unfoldable pub editor_move_cursor : (dx dy : ℤ) → Editor → Option Editor
editor_move_cursor dx dy e =
    let y0 = add_clamped e.cursor_y dy in
    let y = if leb e.line_count y0 then e.line_count - 1 else y0 in
    if e.line_count == 0
    then none
    else if ltb y max_lines
    then some (record e {
      cursor_y = y;
      cursor_x = min (add_clamped e.cursor_x dx) (length (e.buffer y));
      view_start_line = scroll_view e.view_start_line y;
    })
    else none

-- `for (j = i; j > i - rounds; j--) strcpy(buffer[j], buffer[j - 1]);`
unfoldable pub shift_down : (rounds i : ℕ) → Rows → Rows
shift_down zero i rows = rows
shift_down (suc rounds) i rows = shift_down rounds (i - 1) (update rows i (rows (i - 1)))

-- `for (j = i; j < i + rounds; j++) strcpy(buffer[j], buffer[j + 1]);`
unfoldable pub shift_up : (rounds i : ℕ) → Rows → Rows
shift_up zero i rows = rows
shift_up (suc rounds) i rows = shift_up rounds (suc i) (update rows i (rows (suc i)))

-- The row at the cursor split in two.
unfoldable pub split_line : Editor → Option Editor
split_line e =
    let y = e.cursor_y in
    let rows = shift_down (e.line_count - (y + 1)) e.line_count e.buffer in
    let line = e.buffer y in
    if ltb (y + 1) max_lines && leb e.cursor_x (length line)
    then some (record e {
      buffer = update (update rows (y + 1) (drop e.cursor_x line)) y (take e.cursor_x line);
      line_count = e.line_count + 1;
      cursor_y = y + 1;
      cursor_x = 0;
      modified = true;
    })
    else none

-- A character put into the row at the cursor.
unfoldable pub put_in_line : ℕ → Editor → Option Editor
put_in_line c e =
    let line = e.buffer e.cursor_y in
    if leb e.cursor_x (length line)
    then some (record e {
      buffer = update e.buffer e.cursor_y (take e.cursor_x line ++ c ∷ drop e.cursor_x line);
      cursor_x = e.cursor_x + 1;
      modified = true;
    })
    else none

-- The code 10 is '\n'.
unfoldable pub editor_insert_char : ℕ → Editor → Option Editor
editor_insert_char c e =
    if leb max_lines e.cursor_y
    then some e
    else if c == 10
    then (if ltb e.line_count (max_lines - 1) then split_line e else some e)
    else if ltb (length (e.buffer e.cursor_y)) (max_line_length - 1)
    then put_in_line c e
    else some e

-- The row at the cursor joined to the one above it.
unfoldable pub join_lines : Editor → Option Editor
join_lines e =
    let y = e.cursor_y in
    let prev = e.buffer (y - 1) in
    let joined = prev ++ e.buffer y in
    if ltb y max_lines && ltb (length joined) max_line_length
    then some (record e {
      buffer = shift_up (e.line_count - 1 - y) y (update e.buffer (y - 1) joined);
      line_count = e.line_count - 1;
      cursor_y = y - 1;
      cursor_x = length prev;
      modified = true;
    })
    else none

-- The character before the cursor taken out of the row.
unfoldable pub cut_in_line : Editor → Option Editor
cut_in_line e =
    let line = e.buffer e.cursor_y in
    if ltb e.cursor_y max_lines && leb e.cursor_x (length line)
    then some (record e {
      buffer = update e.buffer e.cursor_y (take (e.cursor_x - 1) line ++ drop e.cursor_x line);
      cursor_x = e.cursor_x - 1;
      modified = true;
    })
    else none

unfoldable pub editor_delete_char : Editor → Option Editor
editor_delete_char e =
    if e.cursor_x == 0 then (if e.cursor_y == 0 then some e else join_lines e) else cut_in_line e
