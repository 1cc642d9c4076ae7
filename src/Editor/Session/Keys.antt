-- ===== src/Editor/Session/Keys.antt =====
-- The keys of src/kernel/editor.c in the normal and the insert mode.
use phantom_os.Prelude.{
  ℕ, suc, ◌+◌, ◌-◌, ◌≡◌, arith, true, Bool-cases, inl, inr, ltb, ◌==◌, Option, [], ◌++◌, length,
  take, drop, length-append, length-take, length-drop, Ends, ends, Ends-bind, Ends-value, Ends-if,
  Bool, false, if◌then◌else◌, refl,
}
use phantom_os.CString.{pos, negsuc}
use phantom_os.Editor.{Editor, max_lines, editor_move_cursor, shift_down}
use phantom_os.Editor.Edit.{update-FitsRows, shift_down-FitsRows, shift_up-FitsRows, update_same}
use phantom_os.Editor.Cursor.{move_cursor_lem}
use phantom_os.Editor.Keys.{
  to_insert, open_line, delete_under, delete_line, normal_key, arrow_key, insert_key,
}
use phantom_os.Editor.Session.{
  IsSession, JoinFits, with_text, kept_rest, move_cursor-KeepsRest, insert_char-IsSession,
  delete_char-IsSession, move_cursor-IsSession,
}

-- 'a': one column further, which may be behind the row.
append-IsSession :
    {e : Editor}
    → IsSession e
    → Ends IsSession (editor_move_cursor (pos 0) (pos 0) (record e { cursor_x = e.cursor_x + 1 }))
append-IsSession {e} h =
    let e1 : Editor = record e { cursor_x = e.cursor_x + 1 } in
    let (e', run, ok, visible, same_buffer, same_count) =
      move_cursor_lem (pos 0) (pos 0) e1 h.text.lines_min h.text.lines_max h.text.rows in
    let same = kept_rest run (move_cursor-KeepsRest (pos 0) (pos 0) e1) in
    Ends-value run (
      with_text h ok (record {
        same_command = same.same_command;
        same_name = same.same_name;
        same_status = same.same_status;
      }))

to_insert-IsSession : {e : Editor} → IsSession e → IsSession (to_insert e)
to_insert-IsSession h = record {
  text = record {
    lines_min = h.text.lines_min;
    lines_max = h.text.lines_max;
    row_bound = h.text.row_bound;
    column_bound = h.text.column_bound;
    rows = h.text.rows;
  };
  command_bound = h.command_bound;
  name_bound = h.name_bound;
  status_bound = omega arith;
}

open_line-IsSession : {e : Editor} → IsSession e → Ends IsSession (open_line e)
unfolding open_line
open_line-IsSession {e} h = elim (Bool-cases (ltb e.line_count (max_lines - 1))) [
  | inl room ↦
      let y = e.cursor_y + 1 in
      let rows = shift_down (e.line_count + 1 - y) e.line_count e.buffer in
      let inside : ltb y max_lines ≡ true = ground (arith, room, h.text.row_bound) in
      let shifted =
        shift_down-FitsRows (e.line_count + 1 - y) e.line_count e.buffer
          (omega (arith, h.text.row_bound)) h.text.rows in
      rw room (
        rw inside (
          ends (record {
            text = record {
              lines_min = omega arith;
              lines_max = ground (arith, room);
              row_bound = omega (arith, h.text.row_bound);
              column_bound = omega arith;
              rows = update-FitsRows rows y [] shifted (omega arith);
            };
            command_bound = h.command_bound;
            name_bound = h.name_bound;
            status_bound = omega arith;
          })))
  | inr full ↦ rw full (ends h)
]

delete_under-IsSession : {e : Editor} → IsSession e → Ends IsSession (delete_under e)
unfolding delete_under
delete_under-IsSession {e} h =
    let line = e.buffer e.cursor_y in
    let x = e.cursor_x in
    let new = take x line ++ drop (suc x) line in
    let inside : ltb e.cursor_y max_lines ≡ true =
      ground (arith, h.text.row_bound, h.text.lines_max) in
    let head = length-take x line in
    let tail = length-drop (suc x) line in
    let whole = length-append (take x line) (drop (suc x) line) in
    elim (Bool-cases (ltb x (length line))) [
      | inl here ↦ rw inside (
          rw here (
            ends (record {
              text = record {
                lines_min = h.text.lines_min;
                lines_max = h.text.lines_max;
                row_bound = h.text.row_bound;
                column_bound =
                    rw (update_same e.buffer e.cursor_y new)
                      (ground (arith, here, head, tail, whole));
                rows =
                    update-FitsRows e.buffer e.cursor_y new h.text.rows (
                      omega
                        (arith, head, tail, whole, h.text.rows e.cursor_y, h.text.column_bound));
              };
              command_bound = h.command_bound;
              name_bound = h.name_bound;
              status_bound = h.status_bound;
            })))
      | inr behind ↦ rw inside (rw behind (ends h))
    ]

delete_line-IsSession : {e : Editor} → IsSession e → IsSession (delete_line e)
unfolding delete_line
delete_line-IsSession {e} h =
    let count = e.line_count - 1 in
    elim (Bool-cases (ltb 1 e.line_count)) [
      | inl more ↦ rw more (record {
        text = record {
          lines_min = ground (arith, more);
          lines_max = omega (arith, h.text.lines_max);
          row_bound = ground (arith, more);
          column_bound = omega arith;
          rows = shift_up-FitsRows (count - e.cursor_y) e.cursor_y e.buffer h.text.rows;
        };
        command_bound = h.command_bound;
        name_bound = h.name_bound;
        status_bound = h.status_bound;
      })
      | inr only ↦ rw only h
    ]

pub normal_key-IsSession : (key : ℕ) {e : Editor} → IsSession e → Ends IsSession (normal_key key e)
unfolding normal_key
normal_key-IsSession key {e} h = Ends-if (key == b'i') (ends (to_insert-IsSession h)) (
    Ends-if (key == b'a') (Ends-bind (append-IsSession h) (λ e1 h1. ends (to_insert-IsSession h1)))
      (Ends-if (key == b'o') (open_line-IsSession h) (
        Ends-if (key == b'h') (move_cursor-IsSession (negsuc 0) (pos 0) h) (
          Ends-if (key == b'j') (move_cursor-IsSession (pos 0) (pos 1) h) (
            Ends-if (key == b'k') (move_cursor-IsSession (pos 0) (negsuc 0) h) (
              Ends-if (key == b'l') (move_cursor-IsSession (pos 1) (pos 0) h) (
                Ends-if (key == b':')
                  (ends (record {
                    text = record {
                      lines_min = h.text.lines_min;
                      lines_max = h.text.lines_max;
                      row_bound = h.text.row_bound;
                      column_bound = h.text.column_bound;
                      rows = h.text.rows;
                    };
                    command_bound = omega arith;
                    name_bound = h.name_bound;
                    status_bound = h.status_bound;
                  }))
                  (Ends-if (key == b'x') (delete_under-IsSession h)
                    (Ends-if (key == b'd') (ends (delete_line-IsSession h)) (ends h))))))))))

pub arrow_key-IsSession :
    (scancode : ℕ) {other : Option Editor} {e : Editor}
    → IsSession e
    → Ends IsSession other
    → Ends IsSession (arrow_key scancode other e)
unfolding arrow_key
arrow_key-IsSession scancode h k =
    Ends-if (scancode == 72) (move_cursor-IsSession (pos 0) (negsuc 0) h) (
      Ends-if (scancode == 80) (move_cursor-IsSession (pos 0) (pos 1) h) (
        Ends-if (scancode == 75) (move_cursor-IsSession (negsuc 0) (pos 0) h)
          (Ends-if (scancode == 77) (move_cursor-IsSession (pos 1) (pos 0) h) k)))

key_if :
    {r r' : Option Editor} (b : Bool)
    → (b ≡ true → Ends IsSession r)
    → Ends IsSession r'
    → Ends IsSession (if b then r else r')
key_if true h k = h refl
key_if false h k = k

-- A key in the insert mode.
pub insert_key-IsSession :
    (key scancode : ℕ) {e : Editor}
    → IsSession e
    → (scancode ≡ 14 → JoinFits e)
    → Ends IsSession (insert_key key scancode e)
unfolding insert_key
insert_key-IsSession key scancode {e} h fits =
    Ends-if (scancode == 1)
      (ends (record {
        text = record {
          lines_min = h.text.lines_min;
          lines_max = h.text.lines_max;
          row_bound = h.text.row_bound;
          column_bound = omega (arith, h.text.column_bound);
          rows = h.text.rows;
        };
        command_bound = h.command_bound;
        name_bound = h.name_bound;
        status_bound = omega arith;
      }))
      (key_if (scancode == 14) (λ is. delete_char-IsSession h (fits (ground (arith, is))))
        (Ends-if (scancode == 28) (insert_char-IsSession 10 h) (
          arrow_key-IsSession scancode h
            (Ends-if (key == 0) (ends h) (insert_char-IsSession key h)))))
