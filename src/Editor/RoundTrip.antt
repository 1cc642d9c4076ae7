-- ===== src/Editor/RoundTrip.antt =====
-- `editor_open` of src/kernel/editor.c reads back what `editor_save_file` writes.
use mathlib.Core.List.{append_assoc, append-nil}
use phantom_os.Prelude.{
  ℕ, zero, suc, ◌+◌, ◌-◌, ◌≤◌, ◌<◌, ◌≡◌, ◌≢◌, refl, ap, sym, ◌∙◌, arith, true, false, Bool-cases,
  inl, inr, ltb, ◌==◌, if◌then◌else◌, some, [], ◌∷◌, ◌++◌, length, length-append, ◌>>=◌, Ends, ends,
  Ends-bind, Ends-map, Ends-value,
}
use phantom_os.CString.{Buffer, Text}
use phantom_os.FileSystem.{update}
use phantom_os.Editor.{Rows, Editor, max_lines, max_line_length}
use phantom_os.Editor.Edit.{FitsRows}
use phantom_os.Editor.Opening.{named}
use phantom_os.Editor.Files.{Loading, load_char, load_loop, load_end, load_content, save_lines}

-- A row as the keyboard enters it: no NUL and no '\n' in it.
abbrev pub IsPlain : Text → Type 0
IsPlain [] = Unit {0}
IsPlain (c ∷ t) = (c ≢ 0) × (c ≢ 10) × IsPlain t

-- The characters of a row.
load_loop-row :
    (t rest : Buffer) (line : ℕ) (text : Text) (rows : Rows)
    → IsPlain t
    → line < max_lines
    → length text + length t < max_line_length
    → load_loop (t ++ rest) (record { line = line; text = text; rows = rows })
      ≡ load_loop rest (record { line = line; text = text ++ t; rows = rows })
unfolding load_loop load_char
load_loop-row [] rest line text rows plain room short = rw (append-nil text) refl
load_loop-row (c ∷ t) rest line text rows (not_nul, not_newline, plain) room short =
    let e1 : (c == 0) ≡ false = ground (arith, not_nul) in
    let e2 : (c == 10) ≡ false = ground (arith, not_newline) in
    let e3 : ltb line max_lines ≡ true = ground (arith, room) in
    let e4 : ltb (length text) (max_line_length - 1) ≡ true = ground (arith, short) in
    rw e1 (
      rw e3 (
        rw e2 (
          rw e4 (
            load_loop-row t rest line (text ++ c ∷ []) rows plain room
              (omega (arith, short, length-append text (c ∷ [])))
            ∙ ap (λ (x : Text). load_loop rest (record { line = line; text = x; rows = rows }))
                (append_assoc text (c ∷ []) t)))))

load_loop-newline :
    (t rest : Buffer) (line : ℕ) (rows : Rows)
    → line < max_lines
    → load_loop (10 ∷ rest) (record { line = line; text = t; rows = rows })
      ≡ load_loop rest (record { line = line + 1; text = []; rows = update rows line t })
unfolding load_loop load_char
load_loop-newline t rest line rows room =
    let e3 : ltb line max_lines ≡ true = ground (arith, room) in rw e3 refl

load_loop-end :
    (t rest : Buffer) (line : ℕ) (rows : Rows)
    → load_loop (0 ∷ rest) (record { line = line; text = t; rows = rows })
      ≡ some (record { line = line; text = t; rows = rows })
unfolding load_loop
load_loop-end t rest line rows = refl

save_lines-step :
    (left i : ℕ) (rows : Rows)
    → save_lines (suc (suc left)) i rows ≡ rows i ++ 10 ∷ save_lines (suc left) (suc i) rows
unfolding save_lines
save_lines-step left i rows = ground arith

-- The loop on a row and the '\n' behind it.
load_loop-line :
    (t rest : Buffer) (line : ℕ) (rows : Rows)
    → IsPlain t
    → line < max_lines
    → length t < max_line_length
    → load_loop (t ++ 10 ∷ rest) (record { line = line; text = []; rows = rows })
      ≡ load_loop rest (record { line = suc line; text = []; rows = update rows line t })
load_loop-line t rest line rows plain room short =
    load_loop-row t (10 ∷ rest) line [] rows plain room (omega (arith, short)) ∙ newline
  where
    newline :
        load_loop (10 ∷ rest) (record { line = line; text = t; rows = rows })
        ≡ load_loop rest (record { line = suc line; text = []; rows = update rows line t })
    newline =
        load_loop-newline t rest line rows room
        ∙ ap (λ (n : ℕ). load_loop rest (record { line = n; text = []; rows = update rows line t }))
            (omega arith)

-- What the loop leaves of the rows from `i` on, before the last of them is stored.
record IsRead (left i : ℕ) (rows old : Rows) (l : Loading) : Type 0 where
  line_at : l.line ≡ i + left
  last_row : l.text ≡ rows (i + left)
  below : (j : ℕ) → j < i → l.rows j ≡ old j
  above : (j : ℕ) → i + left ≤ j → l.rows j ≡ old j
  stored : (j : ℕ) → i ≤ j → j < i + left → l.rows j ≡ rows j

load_loop-IsRead :
    (left i : ℕ) (rows old : Rows) (rest : Buffer)
    → ((j : ℕ) → IsPlain (rows j))
    → FitsRows rows
    → i + left < max_lines
    → Ends (IsRead left i rows old) (
        load_loop
          (save_lines (suc left) i rows ++ 0 ∷ rest)
          (record { line = i; text = []; rows = old }))
unfolding save_lines
load_loop-IsRead zero i rows old rest plain fits room =
    Ends-value
      (load_loop-row (rows i) (0 ∷ rest) i [] old (plain i) (omega (arith, room))
          (omega (arith, fits i))
        ∙ load_loop-end (rows i) rest i old)
      (record {
        line_at = omega arith;
        last_row = ap rows (omega arith);
        below = λ j h. refl;
        above = λ j h. refl;
        stored = λ j h k. absurd (omega (arith, h, k));
      })
load_loop-IsRead (suc left) i rows old rest plain fits room =
    let more = save_lines (suc left) (suc i) rows in
    let step : save_lines (suc (suc left)) i rows ++ 0 ∷ rest ≡ rows i ++ 10 ∷ (more ++ 0 ∷ rest) =
      ap (λ (x : Text). x ++ 0 ∷ rest) (save_lines-step left i rows)
      ∙ append_assoc (rows i) (10 ∷ more) (0 ∷ rest) in
    rw step (
      rw (load_loop-line (rows i) (more ++ 0 ∷ rest) i old (plain i) (omega (arith, room)) (fits i))
        (Ends-map
          (load_loop-IsRead left (suc i) rows (update old i (rows i)) rest plain fits
            (omega (arith, room)))
          (λ l h. record {
            line_at = omega (arith, h.line_at);
            last_row = h.last_row ∙ ap rows (omega arith);
            below = λ j before. h.below j (omega (arith, before)) ∙ ground (arith, before);
            above = λ j behind. h.above j (omega (arith, behind)) ∙ ground (arith, behind);
            stored = λ j low high. elim (Bool-cases (i == j)) [
              | inl same ↦ h.below j (ground (arith, same)) ∙ ground (arith, same)
              | inr other ↦ h.stored j (ground (arith, other, low)) (omega (arith, high))
            ];
          })))

-- The number of rows that are read back of `n` rows with `last` as the last one: an empty last row
-- leaves no '\n' behind it.
abbrev pub rows_back : (n : ℕ) → Text → ℕ
rows_back n [] = if ltb 1 n then n - 1 else 1
rows_back n (c ∷ t) = n

-- The editor that has read the rows up to `m`.
pub record ReadsBack (m : ℕ) (rows : Rows) (e : Editor) : Type 0 where
  pub count : e.line_count ≡ rows_back (suc m) (rows m)
  pub same_rows : (j : ℕ) → j < e.line_count → e.buffer j ≡ rows j

one_less : (m : ℕ) → (if ltb 0 m then m else 1) ≡ (if ltb 1 (suc m) then suc m - 1 else 1)
one_less m = ground arith

some_rows : (m : ℕ) → (if ltb 0 (m + 1) then m + 1 else 1) ≡ suc m
some_rows m = ground arith

-- The end of the loop, for the two kinds of a last row.
read_end :
    (m : ℕ) (rows : Rows) (filename : Text) (l : Loading) (last : Text)
    → rows m ≡ last
    → m < max_lines
    → IsRead m 0 rows (named filename).buffer l
    → Ends (ReadsBack m rows) (
        load_end l >>= λ l. some (record (named filename) {
          buffer = l.rows;
          line_count = if ltb 0 l.line then l.line else 1;
        }))
unfolding load_end
read_end m rows filename l [] is room h =
    let empty : l.text ≡ [] = h.last_row ∙ ap rows (omega arith) ∙ is in
    let line : l.line ≡ m = omega (arith, h.line_at) in
    let read : Editor = record (named filename) {
      buffer = l.rows;
      line_count = if ltb 0 l.line then l.line else 1;
    } in
    rw empty (
      ends {a = read} (record {
        count = rw is (rw line (one_less m));
        same_rows = λ j before. elim (Bool-cases (ltb j m)) [
          | inl inside ↦ h.stored j (omega arith) (ground (arith, inside))
          | inr outside ↦
              let only : m ≡ j = ground (arith, line, before, outside) in
              h.above j (omega (arith, only)) ∙ sym is ∙ ap rows only
        ];
      }))
read_end m rows filename l (c ∷ t) is room h =
    let full : l.text ≡ c ∷ t = h.last_row ∙ ap rows (omega arith) ∙ is in
    let line : l.line ≡ m = omega (arith, h.line_at) in
    let inside : ltb l.line max_lines ≡ true = ground (arith, line, room) in
    let more : ltb 0 (length (c ∷ t)) ≡ true = ground arith in
    let n = l.line + 1 in
    let read : Editor = record (named filename) {
      buffer = update l.rows l.line (c ∷ t);
      line_count = if ltb 0 n then n else 1;
    } in
    rw full (
      rw more (
        rw inside (
          ends {a = read} (record {
            count = rw is (rw line (some_rows m));
            same_rows = λ j before. elim (Bool-cases (ltb j m)) [
              | inl early ↦
                  let other : (l.line == j) ≡ false = ground (arith, line, early) in
                  rw other (h.stored j (omega arith) (ground (arith, early)))
              | inr late ↦
                  let only : m ≡ j = ground (arith, line, before, late) in
                  let here : (l.line == j) ≡ true = ground (arith, line, only) in
                  rw here (sym is ∙ ap rows only)
            ];
          }))))

-- The editor reads back the rows that it has saved, whatever stands behind the NUL; only an empty row
-- at the end, behind another row, is lost.
pub load_content-save_lines :
    (m : ℕ) (rows : Rows) (filename : Text) (rest : Buffer)
    → ((j : ℕ) → IsPlain (rows j))
    → FitsRows rows
    → m < max_lines
    → Ends
        (ReadsBack m rows)
        (load_content (save_lines (suc m) 0 rows ++ 0 ∷ rest) (named filename))
unfolding load_content
load_content-save_lines m rows filename rest plain fits room =
    Ends-bind
      (load_loop-IsRead m 0 rows (named filename).buffer rest plain fits (omega (arith, room)))
      (λ l h. read_end m rows filename l (rows m) refl room h)
