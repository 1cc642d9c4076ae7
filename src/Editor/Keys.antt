-- ===== src/Editor/Keys.antt =====
-- `editor_process_command` and `editor_process_key` of src/kernel/editor.c. Scancodes: 1 is Esc, 14
-- Backspace, 28 Enter, and 72, 80, 75 and 77 are the arrows up, down, left and right.
use phantom_os.Prelude.{
  ℕ, suc, ◌+◌, ◌-◌, Bool, true, false, ◌&&◌, not, Option, none, some, [], ◌∷◌, ◌++◌, ◌==◌, ltb, leb,
  if◌then◌else◌, length, take, drop, ◌>>=◌,
}
use phantom_os.CString.{Text, codes, pos, negsuc}
use phantom_os.CString.Compare.{text_eq}
use phantom_os.FileSystem.{Fs, update}
use phantom_os.Editor.{
  EditorMode, normal, insert, command, exiting, Editor, max_lines, editor_move_cursor, shift_down,
  shift_up, editor_insert_char, editor_delete_char,
}
use phantom_os.Editor.Files.{editor_save_file}

abbrev pub set_status : Text → Editor → Editor
set_status message e = record e { status_message = message }

abbrev pub is_exiting : EditorMode → Bool
is_exiting exiting = true
is_exiting normal = false
is_exiting insert = false
is_exiting command = false

-- The branches of `editor_process_command`, before the command buffer is cleared.
unfoldable pub run_command : Text → Editor → Fs → Option (Editor × Fs)
run_command text e s =
    if text_eq text (codes "w")
    then editor_save_file e s
    else if text_eq text (codes "q")
    then some (
      if e.modified
          then set_status (codes "No write since last change (add ! to override)") e
          else record e { mode = exiting },
      s,
    )
    else if text_eq text (codes "q!")
    then some (record e { mode = exiting }, s)
    else if text_eq text (codes "wq")
    then (editor_save_file e s >>= λ r.
        some (if r.0.modified then r.0 else record r.0 { mode = exiting }, r.1))
    else some (set_status (codes "Unknown command") e, s)

unfoldable pub editor_process_command : Editor → Fs → Option (Editor × Fs)
editor_process_command e s =
    run_command e.command_buffer e s >>= λ r. some (record r.0 { command_buffer = [] }, r.1)

abbrev pub to_insert : Editor → Editor
to_insert e = record e { mode = insert; status_message = codes "-- INSERT --" }

-- 'o': a line below the cursor. A row index from 50 on is a fault.
unfoldable pub open_line : Editor → Option Editor
open_line e =
    let y = e.cursor_y + 1 in
    let rows = shift_down (e.line_count + 1 - y) e.line_count e.buffer in
    if ltb e.line_count (max_lines - 1)
    then if ltb y max_lines
      then some (
          to_insert (record e {
            cursor_x = 0;
            cursor_y = y;
            buffer = update rows y [];
            line_count = e.line_count + 1;
            modified = true;
          }))
      else none
    else some e

-- 'x': the character under the cursor.
unfoldable pub delete_under : Editor → Option Editor
delete_under e =
    let line = e.buffer e.cursor_y in
    if ltb e.cursor_y max_lines
    then some (
        if ltb e.cursor_x (length line)
        then record e {
          buffer = update e.buffer e.cursor_y (take e.cursor_x line ++ drop (suc e.cursor_x) line);
          modified = true;
        }
        else e)
    else none

-- 'd': the line of the cursor.
unfoldable pub delete_line : Editor → Editor
delete_line e =
    let count = e.line_count - 1 in
    if ltb 1 e.line_count
    then record e {
      buffer = shift_up (count - e.cursor_y) e.cursor_y e.buffer;
      line_count = count;
      cursor_y = if leb count e.cursor_y then count - 1 else e.cursor_y;
      cursor_x = 0;
      modified = true;
    }
    else e

-- The `switch` of the normal mode.
unfoldable pub normal_key : ℕ → Editor → Option Editor
normal_key key e =
    if key == b'i'
    then some (to_insert e)
    else if key == b'a'
    then (editor_move_cursor (pos 0) (pos 0) (record e { cursor_x = e.cursor_x + 1 }) >>= λ e1.
        some (to_insert e1))
    else if key == b'o'
    then open_line e
    else if key == b'h'
    then editor_move_cursor (negsuc 0) (pos 0) e
    else if key == b'j'
    then editor_move_cursor (pos 0) (pos 1) e
    else if key == b'k'
    then editor_move_cursor (pos 0) (negsuc 0) e
    else if key == b'l'
    then editor_move_cursor (pos 1) (pos 0) e
    else if key == b':'
    then some (record e { mode = command; command_buffer = [] })
    else if key == b'x'
    then delete_under e
    else if key == b'd'
    then some (delete_line e)
    else some e

-- The arrow keys, and what another key does.
unfoldable pub arrow_key : ℕ → Option Editor → Editor → Option Editor
arrow_key scancode other e =
    if scancode == 72
    then editor_move_cursor (pos 0) (negsuc 0) e
    else if scancode == 80
    then editor_move_cursor (pos 0) (pos 1) e
    else if scancode == 75
    then editor_move_cursor (negsuc 0) (pos 0) e
    else if scancode == 77
    then editor_move_cursor (pos 1) (pos 0) e
    else other

unfoldable pub insert_key : (key scancode : ℕ) → Editor → Option Editor
insert_key key scancode e =
    if scancode == 1
    then some (record e {
      mode = normal;
      status_message = codes "-- NORMAL --";
      cursor_x = e.cursor_x - 1;
    })
    else if scancode == 14
    then editor_delete_char e
    else if scancode == 28
    then editor_insert_char 10 e
    else arrow_key scancode (if key == 0 then some e else editor_insert_char key e) e

-- The byte before the NUL of the command buffer removed.
abbrev pub drop_last : Text → Text
drop_last t = take (length t - 1) t

-- `command_buffer[0]` is not reset by Esc, but `command_length` is.
unfoldable pub command_key : (key scancode : ℕ) → Editor → Fs → Option (Editor × Fs)
command_key key scancode e s =
    if scancode == 1
    then some
        (record e { mode = normal; command_buffer = []; status_message = codes "-- NORMAL --" }, s)
    else if scancode == 28
    then (editor_process_command e s >>= λ r.
        some (if is_exiting r.0.mode then r.0 else record r.0 { mode = normal }, r.1))
    else if scancode == 14
    then some (record e { command_buffer = drop_last e.command_buffer }, s)
    else if not (key == 0) && ltb (length e.command_buffer) 78
    then some (record e { command_buffer = e.command_buffer ++ key ∷ [] }, s)
    else some (e, s)

-- The key in the mode that the editor is in.
unfoldable pub mode_key : EditorMode → (key scancode : ℕ) → Editor → Fs → Option (Editor × Fs)
mode_key normal key scancode e s =
    normal_key key e >>= λ e1. arrow_key scancode (some e1) e1 >>= λ e2. some (e2, s)
mode_key insert key scancode e s = insert_key key scancode e >>= λ e1. some (e1, s)
mode_key command key scancode e s = command_key key scancode e s
mode_key exiting key scancode e s = some (e, s)

unfoldable pub editor_process_key : (key scancode : ℕ) → Editor → Fs → Option (Editor × Fs)
editor_process_key key scancode e s = mode_key e.mode key scancode e s
