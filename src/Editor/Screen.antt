-- ===== src/Editor/Screen.antt =====
-- `editor_draw` of src/kernel/editor.c writes only into the cells of the screen.
use phantom_os.Prelude.{
  ℕ, zero, suc, ◌+◌, ◌-◌, ◌*◌, ◌/◌, ◌%◌, ◌≤◌, ◌<◌, ◌≡◌, refl, arith, Bool, true, false, Bool-cases,
  inl, inr, ◌⊎◌, ◌&&◌, not, ltb, leb, if◌then◌else◌, Option, some, [], ◌∷◌, length, take, replicate,
  length-append, length-take, Ends, ends, Ends-bind, Ends-if,
}
use phantom_os.CString.{Text, codes}
use phantom_os.Terminal.{
  vga_width, vga_height, Terminal, terminal_setcolor, terminal_putentryat, terminal_clear,
}
use phantom_os.Terminal.Cursor.{IsOnScreen}
use phantom_os.Editor.{EditorMode, normal, insert, command, exiting, Editor, max_lines}
use phantom_os.Editor.Draw.{
  put_text, num_str, grey_on_black, white_on_black, black_on_white, draw_row, draw_rows, shown_name,
  status_text, mode_text, draw_status, is_command, draw_bottom, draw_cursor, editor_draw,
}
use phantom_os.Editor.Session.{IsSession}

-- A cell of the buffer; behind the column 79 it is the next line's.
putentryat-IsOnScreen :
    (c color x y : ℕ) {t : Terminal}
    → y * vga_width + x < vga_height * vga_width
    → IsOnScreen t
    → Ends IsOnScreen (terminal_putentryat c color x y t)
unfolding terminal_putentryat
putentryat-IsOnScreen c color x y inside h =
    let within : ltb (y * vga_width + x) (vga_height * vga_width) ≡ true = ground arith in
    rw within (ends (record { row_bound = h.row_bound; column_bound = h.column_bound }))

-- A text that ends in its line.
put_text-IsOnScreen :
    (s : Text) (color x y : ℕ) {t : Terminal}
    → x + length s ≤ vga_width
    → y < vga_height
    → IsOnScreen t
    → Ends IsOnScreen (put_text s color x y t)
unfolding put_text
put_text-IsOnScreen [] color x y hx hy h = ends h
put_text-IsOnScreen (c ∷ s) color x y hx hy h =
    Ends-bind (putentryat-IsOnScreen c color x y (omega arith) h)
      (λ t1 h1. put_text-IsOnScreen s color (suc x) y (omega arith) hy h1)

length-num_str : (left num : ℕ) (acc : Text) → length (num_str left num acc) ≡ left + length acc
unfolding num_str
length-num_str zero num acc = omega arith
length-num_str (suc left) num acc =
    omega
      (arith, length-num_str left (num / 10) ((if ltb 0 num then b'0' + num % 10 else b' ') ∷ acc))

length-replicate : (n c : ℕ) → length (replicate n c) ≡ n
unfolding replicate
length-replicate zero c = refl
length-replicate (suc n) c = omega (arith, length-replicate n c)

colored : (c : ℕ) {t : Terminal} → IsOnScreen t → IsOnScreen (terminal_setcolor c t)
unfolding terminal_setcolor
colored c h = record { row_bound = h.row_bound; column_bound = h.column_bound }

draw_row-IsOnScreen :
    (y : ℕ) (e : Editor) {t : Terminal}
    → y < 23
    → y + e.view_start_line < max_lines
    → IsOnScreen t
    → Ends IsOnScreen (draw_row y e t)
unfolding draw_row
draw_row-IsOnScreen y e hy hv h =
    let line = y + e.view_start_line in
    let inside : ltb line max_lines ≡ true = ground arith in
    rw inside (
      Ends-bind
        (put_text-IsOnScreen (num_str 4 (line + 1) []) grey_on_black 0 y
          (omega (arith, length-num_str 4 (line + 1) [])) (omega arith) (colored grey_on_black h))
        (λ t1 h1.
          put_text-IsOnScreen (take 75 (e.buffer line)) white_on_black 5 y
            (omega (arith, length-take 75 (e.buffer line))) (omega arith)
            (colored white_on_black h1)))

draw_rows_step :
    {b : Bool} {t : Terminal} {r : Option Terminal}
    → (b ≡ true) ⊎ (b ≡ false)
    → (b ≡ true → Ends IsOnScreen r)
    → IsOnScreen t
    → Ends IsOnScreen (if b then r else some t)
draw_rows_step (inl more) k h = rw more (k more)
draw_rows_step (inr done) k h = rw done (ends h)

length-shown_name : (name : Text) → length name < 64 → length (shown_name name) < 64
length-shown_name [] h = omega arith
length-shown_name (c ∷ name) h = h

length-mode_text : (m : EditorMode) → length (mode_text m) ≤ 12
length-mode_text normal = omega arith
length-mode_text insert = omega arith
length-mode_text command = omega arith
length-mode_text exiting = omega arith

draw_rows-IsOnScreen :
    (left y : ℕ) (e : Editor) {t : Terminal}
    → y + left ≤ 23
    → e.line_count ≤ max_lines
    → IsOnScreen t
    → Ends IsOnScreen (draw_rows left y e t)
unfolding draw_rows
draw_rows-IsOnScreen zero y e hy hl h = ends h
draw_rows-IsOnScreen (suc left) y e hy hl h =
    draw_rows_step (Bool-cases (ltb (y + e.view_start_line) e.line_count))
      (λ more.
        Ends-bind (draw_row-IsOnScreen y e (omega arith) (ground (arith, more, hl)) h)
          (λ t1 h1. draw_rows-IsOnScreen left (suc y) e (omega arith) hl h1))
      h

length-status_text : (e : Editor) → length e.filename < 64 → length (status_text e) < 80
length-status_text e h =
    let name = shown_name e.filename in
    let short = length-shown_name e.filename h in
    elim (Bool-cases e.modified) [
      | inl dirty ↦ rw dirty (omega (arith, length-append (codes "[+] ") name, short))
      | inr clean ↦ rw clean (omega (arith, short))
    ]

draw_status-IsOnScreen :
    (e : Editor) {t : Terminal} → IsSession e → IsOnScreen t → Ends IsOnScreen (draw_status e t)
unfolding draw_status
draw_status-IsOnScreen e ok h =
    let short = length-status_text e ok.name_bound in
    let room : ltb (length (status_text e)) 80 ≡ true = ground (arith, short) in
    let mode = mode_text e.mode in
    rw room (
      Ends-bind
        (put_text-IsOnScreen (replicate 80 b' ') black_on_white 0 23
          (omega (arith, length-replicate 80 b' ')) (omega arith) (colored black_on_white h))
        (λ t1 h1.
          Ends-bind
            (put_text-IsOnScreen (status_text e) black_on_white 0 23 (omega (arith, short))
              (omega arith) h1)
            (λ t2 h2.
              put_text-IsOnScreen mode black_on_white (80 - length mode) 23
                (omega (arith, length-mode_text e.mode)) (omega arith) h2)))

draw_bottom-IsOnScreen :
    (e : Editor) {t : Terminal} → IsSession e → IsOnScreen t → Ends IsOnScreen (draw_bottom e t)
unfolding draw_bottom
draw_bottom-IsOnScreen e ok h =
    Ends-if (is_command e.mode)
      (Ends-bind (putentryat-IsOnScreen b':' white_on_black 0 24 (omega arith) h) (λ t1 h1.
        Ends-bind
          (put_text-IsOnScreen e.command_buffer white_on_black 1 24
            (omega (arith, ok.command_bound)) (omega arith) h1)
          (λ t2 h2.
            putentryat-IsOnScreen b'_' white_on_black (length e.command_buffer + 1) 24
              (omega (arith, ok.command_bound)) h2)))
      (put_text-IsOnScreen e.status_message white_on_black 0 24 (omega (arith, ok.status_bound))
        (omega arith) h)

draw_cursor-IsOnScreen :
    (e : Editor) {t : Terminal} → IsSession e → IsOnScreen t → Ends IsOnScreen (draw_cursor e t)
unfolding draw_cursor
draw_cursor-IsOnScreen e ok h =
    let shown =
      not (is_command e.mode)
      && (leb e.view_start_line e.cursor_y && ltb (e.cursor_y - e.view_start_line) 23) in
    elim (Bool-cases shown) [
      | inl here ↦ rw here (
          putentryat-IsOnScreen b'_' white_on_black (e.cursor_x + 5)
            (e.cursor_y - e.view_start_line)
            (omega (arith, below here, ok.text.column_bound, ok.text.rows e.cursor_y)) h)
      | inr away ↦ rw away (ends h)
    ]
  where
    below :
        (not (is_command e.mode)
            && (leb e.view_start_line e.cursor_y && ltb (e.cursor_y - e.view_start_line) 23))
          ≡ true
        → e.cursor_y - e.view_start_line < 23
    below here = ground (arith, here)

terminal_clear-IsOnScreen : (t : Terminal) → IsOnScreen (terminal_clear t)
unfolding terminal_clear
terminal_clear-IsOnScreen t = record { row_bound = omega arith; column_bound = omega arith }

-- The editor can always be drawn: every cell that is written is one of the 2,000 cells.
pub editor_draw-IsOnScreen :
    {e : Editor} (t : Terminal) → IsSession e → Ends IsOnScreen (editor_draw e t)
unfolding editor_draw
editor_draw-IsOnScreen {e} t ok =
    Ends-bind
      (draw_rows-IsOnScreen 23 0 e (omega arith) ok.text.lines_max (terminal_clear-IsOnScreen t))
      (λ t1 h1. Ends-bind (draw_status-IsOnScreen e ok h1) (λ t2 h2.
        Ends-bind (draw_bottom-IsOnScreen e ok h2) (λ t3 h3. draw_cursor-IsOnScreen e ok h3)))
