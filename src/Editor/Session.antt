-- ===== src/Editor/Session.antt =====
-- Everything that src/kernel/editor.c keeps of the editor has room in its array, also after a change
-- of the text or the cursor.
pub mod Keys
use phantom_os.Prelude.{
  ℕ, suc, ◌+◌, ◌-◌, ◌<◌, ◌≡◌, refl, arith, Bool, true, false, Bool-cases, inl, inr, ◌&&◌, ltb, leb,
  ◌==◌, if◌then◌else◌, Option, none, some, [], ◌++◌, length, take, drop, length-append, length-take,
  length-drop, Ends, ends, Ends-bind, Ends-value, Ends-if,
}
use phantom_os.CString.{ℤ, pos, negsuc}
use phantom_os.Editor.{
  Editor, max_lines, max_line_length, editor_move_cursor, shift_down, split_line, put_in_line,
  editor_insert_char, join_lines, cut_in_line, editor_delete_char, insert,
}
use phantom_os.Editor.Edit.{
  IsEditor, EndsInBuffer, update-FitsRows, shift_down-FitsRows, shift_up-FitsRows, update_same,
  editor_insert_char-EndsInBuffer, editor_delete_char-EndsInBuffer,
}
use phantom_os.Editor.Cursor.{move_cursor_lem, editor_move_cursor-IsEditor}
use phantom_os.Editor.Keys.{
  to_insert, open_line, delete_under, delete_line, normal_key, arrow_key, insert_key,
}

-- Everything that the editor keeps has room in its array.
pub record IsSession (e : Editor) : Type 0 where
  pub text : IsEditor e
  pub command_bound : length e.command_buffer < 79
  pub name_bound : length e.filename < 64
  pub status_bound : length e.status_message < 80

-- The fields beside the text and the cursor.
pub record SameRest (e e' : Editor) : Type 0 where
  pub same_command : e'.command_buffer ≡ e.command_buffer
  pub same_name : e'.filename ≡ e.filename
  pub same_status : e'.status_message ≡ e.status_message

data KeepsRest (e : Editor) : Option Editor → Type 0 where
  faulted : KeepsRest e none
  kept : {e' : Editor} → SameRest e e' → KeepsRest e (some e')

KeepsRest_if :
    (e : Editor) (b : Bool) {r r' : Option Editor}
    → KeepsRest e r
    → KeepsRest e r'
    → KeepsRest e (if b then r else r')
KeepsRest_if e true h k = h
KeepsRest_if e false h k = k

SameRest-refl : (e : Editor) → SameRest e e
SameRest-refl e = record { same_command = refl; same_name = refl; same_status = refl }

-- A session with another text and cursor.
with_text : {e e' : Editor} → IsSession e → IsEditor e' → SameRest e e' → IsSession e'
with_text h t same = record {
  text = t;
  command_bound = rw same.same_command h.command_bound;
  name_bound = rw same.same_name h.name_bound;
  status_bound = rw same.same_status h.status_bound;
}

Ends-IsSession :
    {e : Editor} (r : Option Editor)
    → IsSession e
    → EndsInBuffer r
    → KeepsRest e r
    → Ends IsSession r
Ends-IsSession none h t same = absurd t
Ends-IsSession (some e') h t (kept same) = ends (with_text h t same)

insert_char-KeepsRest : (c : ℕ) (e : Editor) → KeepsRest e (editor_insert_char c e)
unfolding editor_insert_char split_line put_in_line
insert_char-KeepsRest c e = KeepsRest_if e (leb max_lines e.cursor_y) (kept (SameRest-refl e)) (
    KeepsRest_if e (c == 10)
      (KeepsRest_if e (ltb e.line_count (max_lines - 1))
        (KeepsRest_if e
          (ltb (e.cursor_y + 1) max_lines && leb e.cursor_x (length (e.buffer e.cursor_y)))
          (kept (record { same_command = refl; same_name = refl; same_status = refl })) faulted)
        (kept (SameRest-refl e)))
      (KeepsRest_if e (ltb (length (e.buffer e.cursor_y)) (max_line_length - 1))
        (KeepsRest_if e (leb e.cursor_x (length (e.buffer e.cursor_y)))
          (kept (record { same_command = refl; same_name = refl; same_status = refl })) faulted)
        (kept (SameRest-refl e))))

delete_char-KeepsRest : (e : Editor) → KeepsRest e (editor_delete_char e)
unfolding editor_delete_char join_lines cut_in_line
delete_char-KeepsRest e =
    KeepsRest_if e (e.cursor_x == 0)
      (KeepsRest_if e (e.cursor_y == 0) (kept (SameRest-refl e)) (
        KeepsRest_if e
          (ltb e.cursor_y max_lines
            && ltb (length (e.buffer (e.cursor_y - 1) ++ e.buffer e.cursor_y)) max_line_length)
          (kept (record { same_command = refl; same_name = refl; same_status = refl })) faulted))
      (KeepsRest_if e (ltb e.cursor_y max_lines && leb e.cursor_x (length (e.buffer e.cursor_y)))
        (kept (record { same_command = refl; same_name = refl; same_status = refl })) faulted)

move_cursor-KeepsRest : (dx dy : ℤ) (e : Editor) → KeepsRest e (editor_move_cursor dx dy e)
unfolding editor_move_cursor
move_cursor-KeepsRest dx dy e = KeepsRest_if e (e.line_count == 0) faulted (
    KeepsRest_if e _ (kept (record { same_command = refl; same_name = refl; same_status = refl }))
      faulted)

pub insert_char-IsSession :
    (c : ℕ) {e : Editor} → IsSession e → Ends IsSession (editor_insert_char c e)
insert_char-IsSession c {e} h =
    Ends-IsSession (editor_insert_char c e) h (editor_insert_char-EndsInBuffer c e h.text)
      (insert_char-KeepsRest c e)

-- There is room where a backspace joins a line with the one above it.
abbrev pub JoinFits : Editor → Type 0
JoinFits e =
    e.cursor_x ≡ 0
    → 0 < e.cursor_y
    → length (e.buffer (e.cursor_y - 1) ++ e.buffer e.cursor_y) < max_line_length

-- What a key relies on: it is a backspace in the insert mode, or not.
abbrev pub BackspaceFits : ℕ → Editor → Type 0
BackspaceFits scancode e = e.mode ≡ insert → scancode ≡ 14 → JoinFits e

pub delete_char-IsSession :
    {e : Editor} → IsSession e → JoinFits e → Ends IsSession (editor_delete_char e)
delete_char-IsSession {e} h fits =
    Ends-IsSession (editor_delete_char e) h (editor_delete_char-EndsInBuffer e h.text fits)
      (delete_char-KeepsRest e)

kept_rest : {e e' : Editor} {r : Option Editor} → r ≡ some e' → KeepsRest e r → SameRest e e'
kept_rest e k = from (rw e at k)
  where
    from : {e e' : Editor} → KeepsRest e (some e') → SameRest e e'
    from (kept same) = same

pub move_cursor-IsSession :
    (dx dy : ℤ) {e : Editor} → IsSession e → Ends IsSession (editor_move_cursor dx dy e)
move_cursor-IsSession dx dy {e} h =
    let (e', run, ok, visible, same_buffer, same_count) =
      editor_move_cursor-IsEditor dx dy e h.text in
    Ends-value run (with_text h ok (kept_rest run (move_cursor-KeepsRest dx dy e)))
