-- ===== src/Editor/Edit.antt =====
-- The edits of src/kernel/editor.c keep the text and the cursor within the buffer.
use phantom_os.Prelude.{
  ℕ, suc, ◌+◌, ◌-◌, ◌≤◌, ◌<◌, ◌≡◌, ◌∙◌, arith, Bool, true, false, Bool-cases, inl, inr, ◌&&◌, ltb,
  leb, ◌==◌, if◌then◌else◌, Option, none, some, ◌∷◌, ◌++◌, length, take, drop, length-append,
  length-take, length-drop,
}
use phantom_os.CString.{Text}
use phantom_os.FileSystem.{update}
use phantom_os.Editor.{
  Rows, Editor, max_lines, max_line_length, shift_down, shift_up, split_line, put_in_line,
  editor_insert_char, join_lines, cut_in_line, editor_delete_char,
}
use phantom_os.Editor.Rows.{shift_down-row, shift_up-row}

-- Each row fits in its array of 76 bytes.
abbrev pub FitsRows : Rows → Type 0
FitsRows rows = (i : ℕ) → length (rows i) < max_line_length

-- The cursor is in a line of the text, and the text in the buffer.
pub record IsEditor (e : Editor) : Type 0 where
  pub lines_min : 0 < e.line_count
  pub lines_max : e.line_count ≤ max_lines
  pub row_bound : e.cursor_y < e.line_count
  pub column_bound : e.cursor_x ≤ length (e.buffer e.cursor_y)
  pub rows : FitsRows e.buffer

-- A call ends without a fault, within the buffer.
abbrev pub EndsInBuffer : Option Editor → Type 0
EndsInBuffer none = ⊥
EndsInBuffer (some e) = IsEditor e

pub update-FitsRows :
    (rows : Rows) (i : ℕ) (line : Text)
    → FitsRows rows
    → length line < max_line_length
    → FitsRows (update rows i line)
update-FitsRows rows i line ok h j = elim (Bool-cases (i == j)) [
  | inl same ↦ rw same h
  | inr other ↦ rw other (ok j)
]

if-FitsRows :
    (b : Bool) (s t : Text)
    → length s < max_line_length
    → length t < max_line_length
    → length (if b then s else t) < max_line_length
if-FitsRows true s t h k = h
if-FitsRows false s t h k = k

pub shift_down-FitsRows :
    (k i : ℕ) (rows : Rows) → k ≤ i → FitsRows rows → FitsRows (shift_down k i rows)
shift_down-FitsRows k i rows h ok j =
    rw (shift_down-row k i j rows h)
      (if-FitsRows (ltb (i - k) j && leb j i) _ _ (ok (j - 1)) (ok j))

pub shift_up-FitsRows : (k i : ℕ) (rows : Rows) → FitsRows rows → FitsRows (shift_up k i rows)
shift_up-FitsRows k i rows ok j =
    rw (shift_up-row k i j rows) (if-FitsRows (leb i j && ltb j (i + k)) _ _ (ok (suc j)) (ok j))

pub update_same : (rows : Rows) (i : ℕ) (line : Text) → update rows i line i ≡ line
update_same rows i line = ground arith

split_line-EndsInBuffer :
    (e : Editor) → IsEditor e → e.line_count < max_lines - 1 → EndsInBuffer (split_line e)
unfolding split_line
split_line-EndsInBuffer e ok room =
    let y = e.cursor_y in
    let line = e.buffer y in
    let test : (ltb (y + 1) max_lines && leb e.cursor_x (length line)) ≡ true =
      ground (arith, ok.row_bound, ok.column_bound) in
    let head : length (take e.cursor_x line) < 76 =
      omega (arith, length-take e.cursor_x line, ok.rows y) in
    let tail : length (drop e.cursor_x line) < 76 =
      omega (arith, length-drop e.cursor_x line, ok.rows y) in
    let shifted =
      shift_down-FitsRows (e.line_count - (y + 1)) e.line_count e.buffer (omega arith) ok.rows in
    rw test (record {
      lines_min = omega arith;
      lines_max = omega (arith, room);
      row_bound = omega (arith, ok.row_bound);
      column_bound = omega arith;
      rows = update-FitsRows _ y _ (update-FitsRows _ (y + 1) _ shifted tail) head;
    })

put_in_line-EndsInBuffer :
    (c : ℕ) (e : Editor)
    → IsEditor e
    → length (e.buffer e.cursor_y) < max_line_length - 1
    → EndsInBuffer (put_in_line c e)
unfolding put_in_line
put_in_line-EndsInBuffer c e ok room =
    let line = e.buffer e.cursor_y in
    let x = e.cursor_x in
    let new = take x line ++ c ∷ drop x line in
    let test : leb x (length line) ≡ true = ground (arith, ok.column_bound) in
    let size : length new ≡ length line + 1 = omega (
      arith,
      length-append (take x line) (c ∷ drop x line),
      length-take x line,
      length-drop x line,
      ok.column_bound,
    ) in
    rw test (record {
      lines_min = ok.lines_min;
      lines_max = ok.lines_max;
      row_bound = ok.row_bound;
      column_bound =
          rw (update_same e.buffer e.cursor_y new) (omega (arith, size, ok.column_bound));
      rows = update-FitsRows e.buffer e.cursor_y new ok.rows (omega (arith, size, room));
    })

-- From a cursor within a text of 1 to 50 rows `editor_insert_char` never writes outside the buffer
-- or a row of it, for every character, and keeps the cursor within the text.
pub editor_insert_char-EndsInBuffer :
    (c : ℕ) (e : Editor) → IsEditor e → EndsInBuffer (editor_insert_char c e)
unfolding editor_insert_char
editor_insert_char-EndsInBuffer c e ok =
    let inside : leb max_lines e.cursor_y ≡ false = ground (arith, ok.row_bound, ok.lines_max) in
    elim (Bool-cases (c == 10)) [
      | inl newline ↦ elim (Bool-cases (ltb e.line_count (max_lines - 1))) [
        | inl room ↦ rw inside (rw newline (rw room (split_line-EndsInBuffer e ok (ground arith))))
        | inr full ↦ rw inside (rw newline (rw full ok))
      ]
      | inr plain ↦ elim (Bool-cases (ltb (length (e.buffer e.cursor_y)) (max_line_length - 1))) [
        | inl room ↦ rw inside (rw plain (rw room (put_in_line-EndsInBuffer c e ok (ground arith))))
        | inr full ↦ rw inside (rw plain (rw full ok))
      ]
    ]

join_lines-EndsInBuffer :
    (e : Editor)
    → IsEditor e
    → 0 < e.cursor_y
    → length (e.buffer (e.cursor_y - 1) ++ e.buffer e.cursor_y) < max_line_length
    → EndsInBuffer (join_lines e)
unfolding join_lines
join_lines-EndsInBuffer e ok below fits =
    let y = e.cursor_y in
    let prev = e.buffer (y - 1) in
    let joined = prev ++ e.buffer y in
    let rows = update e.buffer (y - 1) joined in
    let test : (ltb y max_lines && ltb (length joined) max_line_length) ≡ true =
      ground (arith, ok.row_bound, ok.lines_max, fits) in
    let kept : shift_up (e.line_count - 1 - y) y rows (y - 1) ≡ joined =
      shift_up-row (e.line_count - 1 - y) y (y - 1) rows ∙ ground (arith, below) in
    rw test (record {
      lines_min = omega (arith, ok.row_bound, below);
      lines_max = omega (arith, ok.lines_max);
      row_bound = omega (arith, ok.row_bound, below);
      column_bound = rw kept (omega (arith, length-append prev (e.buffer y)));
      rows =
          shift_up-FitsRows (e.line_count - 1 - y) y rows
            (update-FitsRows e.buffer (y - 1) joined ok.rows fits);
    })

cut_in_line-EndsInBuffer : (e : Editor) → IsEditor e → 0 < e.cursor_x → EndsInBuffer (cut_in_line e)
unfolding cut_in_line
cut_in_line-EndsInBuffer e ok more =
    let line = e.buffer e.cursor_y in
    let x = e.cursor_x in
    let new = take (x - 1) line ++ drop x line in
    let test : (ltb e.cursor_y max_lines && leb x (length line)) ≡ true =
      ground (arith, ok.row_bound, ok.lines_max, ok.column_bound) in
    let size : length new + 1 ≡ length line = omega (
      arith,
      length-append (take (x - 1) line) (drop x line),
      length-take (x - 1) line,
      length-drop x line,
      ok.column_bound,
      more,
    ) in
    rw test (record {
      lines_min = ok.lines_min;
      lines_max = ok.lines_max;
      row_bound = ok.row_bound;
      column_bound =
          rw (update_same e.buffer e.cursor_y new) (omega (arith, size, ok.column_bound));
      rows =
          update-FitsRows e.buffer e.cursor_y new ok.rows (omega (arith, size, ok.rows e.cursor_y));
    })

-- From a cursor within the text `editor_delete_char` never writes outside the buffer and keeps the
-- cursor within the text, provided that the line fits behind the one above it where it is joined to
-- that.
pub editor_delete_char-EndsInBuffer :
    (e : Editor)
    → IsEditor e
    → (e.cursor_x ≡ 0
        → 0 < e.cursor_y
        → length (e.buffer (e.cursor_y - 1) ++ e.buffer e.cursor_y) < max_line_length)
    → EndsInBuffer (editor_delete_char e)
unfolding editor_delete_char
editor_delete_char-EndsInBuffer e ok fits = elim (Bool-cases (e.cursor_x == 0)) [
  | inl start ↦ elim (Bool-cases (e.cursor_y == 0)) [
    | inl top ↦ rw start (rw top ok)
    | inr below ↦ rw start (
        rw below (join_lines-EndsInBuffer e ok (ground arith) (fits (ground arith) (ground arith))))
  ]
  | inr more ↦ rw more (cut_in_line-EndsInBuffer e ok (ground arith))
]
