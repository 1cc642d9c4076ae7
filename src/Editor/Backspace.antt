-- ===== src/Editor/Backspace.antt =====
-- `editor_delete_char` of src/kernel/editor.c after `editor_insert_char`.
use phantom_os.Prelude.{
  ℕ, suc, ◌+◌, ◌-◌, ◌≤◌, ◌<◌, ◌≡◌, refl, ap, ◌∙◌, arith, true, false, Bool-cases, inl, inr, ◌&&◌,
  ltb, leb, ◌==◌, if◌then◌else◌, Option, none, some, ◌∷◌, ◌++◌, length, take, drop, length-append,
  length-drop, length-take, take-append, take-append-drop, drop-append-cons, ◌>>=◌,
}
use phantom_os.CString.{Text}
use phantom_os.FileSystem.{update}
use phantom_os.Editor.{
  Rows, Editor, max_lines, max_line_length, shift_down, shift_up, put_in_line, split_line,
  join_lines, editor_insert_char, cut_in_line, editor_delete_char,
}
use phantom_os.Editor.Rows.{shift-back}
use phantom_os.Editor.Edit.{IsEditor}

-- The lines and the cursor of `e` and `e'` are the same.
pub record SameText (e e' : Editor) : Type 0 where
  pub same_rows : (i : ℕ) → i < e.line_count → e'.buffer i ≡ e.buffer i
  pub same_count : e'.line_count ≡ e.line_count
  pub same_x : e'.cursor_x ≡ e.cursor_x
  pub same_y : e'.cursor_y ≡ e.cursor_y

-- A call ends without a fault, with the text and the cursor of `e`.
abbrev pub RestoresText : Editor → Option Editor → Type 0
RestoresText e none = ⊥
RestoresText e (some e') = SameText e e'

abbrev with_char : ℕ → ℕ → Text → Text
with_char x c line = take x line ++ c ∷ drop x line

cut-with_char :
    (x c : ℕ) (line : Text)
    → x ≤ length line
    → take x (with_char x c line) ++ drop (suc x) (with_char x c line) ≡ line
cut-with_char x c line h =
    let size : x ≡ length (take x line) = omega (arith, length-take x line) in
    let front : take x (with_char x c line) ≡ take x line =
      take-append x (take x line) (c ∷ drop x line) size in
    let back : drop (suc x) (with_char x c line) ≡ drop x line =
      ap (λ (k : ℕ). drop (suc k) (with_char x c line)) size
      ∙ drop-append-cons (take x line) (drop x line) c in
    ap (λ (s : Text). s ++ drop (suc x) (with_char x c line)) front
    ∙ ap (λ (s : Text). take x line ++ s) back
    ∙ take-append-drop x line

-- The row that was changed and changed back.
update_back :
    (rows : Rows) (y i : ℕ) (new line : Text)
    → line ≡ rows y
    → update (update rows y new) y line i ≡ rows i
update_back rows y i new line e = ground (arith, e)

-- What the edits within a row give.
abbrev put : ℕ → Editor → Editor
put c e = record e {
  buffer = update e.buffer e.cursor_y (with_char e.cursor_x c (e.buffer e.cursor_y));
  cursor_x = e.cursor_x + 1;
  modified = true;
}

abbrev cut : Editor → Editor
cut e = record e {
  buffer =
      update e.buffer e.cursor_y
        (take (e.cursor_x - 1) (e.buffer e.cursor_y) ++ drop e.cursor_x (e.buffer e.cursor_y));
  cursor_x = e.cursor_x - 1;
  modified = true;
}

put_in_line-put :
    (c : ℕ) (e : Editor)
    → e.cursor_x ≤ length (e.buffer e.cursor_y)
    → put_in_line c e ≡ some (put c e)
unfolding put_in_line
put_in_line-put c e h =
    let test : leb e.cursor_x (length (e.buffer e.cursor_y)) ≡ true = ground arith in rw test refl

delete_char-cut :
    (e : Editor)
    → 0 < e.cursor_x
    → e.cursor_y < max_lines
    → e.cursor_x ≤ length (e.buffer e.cursor_y)
    → editor_delete_char e ≡ some (cut e)
unfolding editor_delete_char cut_in_line
delete_char-cut e more inside h =
    let later : (e.cursor_x == 0) ≡ false = ground arith in
    let test : (ltb e.cursor_y max_lines && leb e.cursor_x (length (e.buffer e.cursor_y))) ≡ true =
      ground arith in
    rw later (rw test refl)

cut-put :
    (c : ℕ) (e : Editor)
    → IsEditor e
    → SameText e (cut (put c e)) × (editor_delete_char (put c e) ≡ some (cut (put c e)))
cut-put c e ok =
    let x = e.cursor_x in
    let y = e.cursor_y in
    let line = e.buffer y in
    let new = with_char x c line in
    let at : update e.buffer y new y ≡ new = ground arith in
    let size : length new ≡ length line + 1 = omega (
      arith,
      length-append (take x line) (c ∷ drop x line),
      length-take x line,
      length-drop x line,
      ok.column_bound,
    ) in
    let restored : take (x + 1 - 1) (update e.buffer y new y)
          ++ drop (x + 1) (update e.buffer y new y)
        ≡ line =
      let before : x + 1 - 1 ≡ x = omega arith in
      let after : x + 1 ≡ suc x = omega arith in
      rw (at) (rw (before) (rw after (cut-with_char x c line ok.column_bound))) in
    (
      record {
        same_rows = λ i h. update_back e.buffer y i new _ restored;
        same_count = refl;
        same_x = omega arith;
        same_y = refl;
      },
      delete_char-cut (put c e) (omega arith) (omega (arith, ok.row_bound, ok.lines_max))
          (rw at (omega (arith, size, ok.column_bound))),
    )

-- What the edits across rows give.
abbrev split : Editor → Editor
split e =
    let y = e.cursor_y in
    let rows = shift_down (e.line_count - (y + 1)) e.line_count e.buffer in
    record e {
      buffer =
          update (update rows (y + 1) (drop e.cursor_x (e.buffer y))) y
            (take e.cursor_x (e.buffer y));
      line_count = e.line_count + 1;
      cursor_y = y + 1;
      cursor_x = 0;
      modified = true;
    }

abbrev joined_row : Editor → Text
joined_row e = e.buffer (e.cursor_y - 1) ++ e.buffer e.cursor_y

abbrev joined : Editor → Editor
joined e =
    let y = e.cursor_y in
    record e {
      buffer = shift_up (e.line_count - 1 - y) y (update e.buffer (y - 1) (joined_row e));
      line_count = e.line_count - 1;
      cursor_y = y - 1;
      cursor_x = length (e.buffer (y - 1));
      modified = true;
    }

split_line-split :
    (e : Editor)
    → e.cursor_y + 1 < max_lines
    → e.cursor_x ≤ length (e.buffer e.cursor_y)
    → split_line e ≡ some (split e)
unfolding split_line
split_line-split e inside h =
    let test : (ltb (e.cursor_y + 1) max_lines && leb e.cursor_x (length (e.buffer e.cursor_y)))
        ≡ true =
      ground arith in
    rw test refl

delete_char-joined :
    (e : Editor)
    → e.cursor_x ≡ 0
    → 0 < e.cursor_y
    → e.cursor_y < max_lines
    → length (joined_row e) < max_line_length
    → editor_delete_char e ≡ some (joined e)
unfolding editor_delete_char join_lines
delete_char-joined e start below inside fits =
    let first : (e.cursor_x == 0) ≡ true = ground arith in
    let later : (e.cursor_y == 0) ≡ false = ground arith in
    let test : (ltb e.cursor_y max_lines && ltb (length (joined_row e)) max_line_length) ≡ true =
      ground arith in
    rw first (rw later (rw test refl))

joined_row-split : (e : Editor) → joined_row (split e) ≡ e.buffer e.cursor_y
joined_row-split e =
    let y = e.cursor_y in
    let x = e.cursor_x in
    let above : y + 1 - 1 ≡ y = omega arith in
    let head : (split e).buffer (y + 1 - 1) ≡ take x (e.buffer y) = rw above (ground arith) in
    let tail : (split e).buffer (y + 1) ≡ drop x (e.buffer y) = ground arith in
    rw (head, tail) (take-append-drop x (e.buffer y))

joined-split-row :
    (e : Editor) (i : ℕ) → IsEditor e → i < e.line_count → (joined (split e)).buffer i ≡ e.buffer i
joined-split-row e i ok h =
    let y = e.cursor_y in
    let above : y + 1 - 1 ≡ y = omega arith in
    let rounds : e.line_count + 1 - 1 - (y + 1) ≡ e.line_count - (y + 1) = omega arith in
    rw (rounds) (
      rw (above) (
        shift-back e.buffer e.line_count y i _ _ _ (rw above at (joined_row-split e)) ok.row_bound
          h))

joined-split :
    (e : Editor)
    → IsEditor e
    → e.line_count < max_lines
    → SameText e (joined (split e)) × (editor_delete_char (split e) ≡ some (joined (split e)))
joined-split e ok room =
    let y = e.cursor_y in
    let above : y + 1 - 1 ≡ y = omega arith in
    let head : (split e).buffer (y + 1 - 1) ≡ take e.cursor_x (e.buffer y) =
      rw above (ground arith) in
    (
      record {
        same_rows = λ i h. joined-split-row e i ok h;
        same_count = omega arith;
        same_x = rw head (omega (arith, length-take e.cursor_x (e.buffer y), ok.column_bound));
        same_y = omega arith;
      },
      delete_char-joined (split e) refl (omega arith) (omega (arith, ok.row_bound, room))
          (rw (joined_row-split e) (ok.rows y)),
    )

restores :
    {e e1 e2 : Editor} {r : Option Editor}
    → r ≡ some e1
    → SameText e e2 × (editor_delete_char e1 ≡ some e2)
    → RestoresText e (r >>= λ d. editor_delete_char d)
restores run (same, back) = rw (run, ◌>>=◌) (rw back same)

-- There is room for the character at the cursor: a free row for '\n', a free byte for another one.
abbrev pub HasRoom : ℕ → Editor → Type 0
HasRoom c e =
    if c == 10
    then e.line_count < max_lines - 1
    else length (e.buffer e.cursor_y) < max_line_length - 1

-- Where there is room for a character, `editor_delete_char` takes back what `editor_insert_char`
-- did: neither faults, and afterwards all lines and the cursor are as before, also for '\n'.
pub editor_delete_char-insert_char :
    (c : ℕ) (e : Editor)
    → IsEditor e
    → HasRoom c e
    → RestoresText e (editor_insert_char c e >>= λ e1. editor_delete_char e1)
unfolding editor_insert_char
editor_delete_char-insert_char c e ok room =
    let inside : leb max_lines e.cursor_y ≡ false = ground (arith, ok.row_bound, ok.lines_max) in
    elim (Bool-cases (c == 10)) [
      | inl newline ↦
          let free : ltb e.line_count (max_lines - 1) ≡ true = ground (arith, rw newline at room) in
          restores
            (rw inside (
              rw newline (
                rw free (
                  split_line-split e (omega (arith, ok.row_bound, ok.lines_max, rw newline at room))
                    ok.column_bound))))
            (joined-split e ok (omega (arith, rw newline at room)))
      | inr plain ↦
          let free : ltb (length (e.buffer e.cursor_y)) (max_line_length - 1) ≡ true =
            ground (arith, rw plain at room) in
          restores (rw inside (rw plain (rw free (put_in_line-put c e ok.column_bound))))
            (cut-put c e ok)
    ]
