-- ===== src/Terminal/Cursor.antt =====
-- The cursor of the terminal of src/kernel/kernel.c: `terminal_putchar` and `terminal_write`.
use phantom_os.Prelude.{
  ℕ, ◌+◌, ◌*◌, ◌-◌, ◌%◌, ◌<◌, ◌≡◌, refl, arith, true, Bool-cases, inl, inr, ltb, leb, ◌==◌, Option,
  none, some, [], ◌∷◌, ◌>>=◌,
}
use phantom_os.CString.{Text}
use phantom_os.FileSystem.{update}
use phantom_os.Terminal.{
  Terminal, vga_width, vga_height, vga_entry, terminal_putentryat, terminal_scroll, next_row,
  new_line, tab, backspace, put_plain, terminal_putchar, terminal_write,
}

-- The cursor is in one of the cells.
pub record IsOnScreen (t : Terminal) : Type 0 where
  pub row_bound : t.row < vga_height
  pub column_bound : t.column < vga_width

-- A call ends without a fault, with the cursor on the screen.
abbrev pub EndsOnScreen : Option Terminal → Type 0
EndsOnScreen none = ⊥
EndsOnScreen (some t) = IsOnScreen t

next_row-IsOnScreen :
    (t : Terminal) → t.row < vga_height → t.column < vga_width → IsOnScreen (next_row t)
unfolding next_row terminal_scroll
next_row-IsOnScreen t hr hc = elim (Bool-cases (t.row + 1 == vga_height)) [
  | inl last ↦ rw last (record { row_bound = omega arith; column_bound = hc })
  | inr more ↦ rw more (record { row_bound = ground arith; column_bound = hc })
]

new_line-IsOnScreen : (t : Terminal) → IsOnScreen t → IsOnScreen (new_line t)
unfolding new_line
new_line-IsOnScreen t ok = next_row-IsOnScreen (record t { column = 0 }) ok.row_bound (omega arith)

tab-IsOnScreen : (t : Terminal) → IsOnScreen t → IsOnScreen (tab t)
unfolding tab
tab-IsOnScreen t ok = elim (Bool-cases (leb vga_width (t.column + 4 - (t.column + 4) % 4))) [
  | inl wide ↦ rw wide (new_line-IsOnScreen t ok)
  | inr fits ↦ rw fits (record { row_bound = ok.row_bound; column_bound = ground arith })
]

putentryat-some :
    (c color x y : ℕ) (t : Terminal)
    → x < vga_width
    → y < vga_height
    → terminal_putentryat c color x y t
      ≡ some (record t { buffer = update t.buffer (y * vga_width + x) (vga_entry c color) })
unfolding terminal_putentryat
putentryat-some c color x y t hx hy =
    let within : ltb (y * vga_width + x) (vga_height * vga_width) ≡ true = ground arith in
    rw within refl

backspace-EndsOnScreen : (t : Terminal) → IsOnScreen t → EndsOnScreen (backspace t)
unfolding backspace
backspace-EndsOnScreen t ok = elim (Bool-cases (ltb 0 t.column)) [
  | inl more ↦
      let t1 : Terminal = record t { column = t.column - 1 } in
      let bound : t1.column < vga_width = omega (arith, ok.column_bound) in
      rw more (
        rw (putentryat-some b' ' t.color t1.column t.row t1 bound ok.row_bound)
          (record { row_bound = ok.row_bound; column_bound = bound }))
  | inr start ↦ rw start ok
]

put_plain-EndsOnScreen : (c : ℕ) (t : Terminal) → IsOnScreen t → EndsOnScreen (put_plain c t)
unfolding put_plain
put_plain-EndsOnScreen c t ok =
    rw (putentryat-some c t.color t.column t.row t ok.column_bound ok.row_bound, ◌>>=◌)
      (elim (Bool-cases (t.column + 1 == vga_width)) [
        | inl last ↦ rw last (
            new_line-IsOnScreen _
              (record { row_bound = ok.row_bound; column_bound = ok.column_bound }))
        | inr more ↦
            rw more
              (record { row_bound = ok.row_bound; column_bound = ground (arith, ok.column_bound) })
      ])

-- From a cursor on the screen `terminal_putchar` writes only cells of the screen, for every
-- character, and leaves the cursor on the screen.
pub terminal_putchar-EndsOnScreen :
    (c : ℕ) (t : Terminal) → IsOnScreen t → EndsOnScreen (terminal_putchar c t)
unfolding terminal_putchar
terminal_putchar-EndsOnScreen c t ok = elim (Bool-cases (c == 10)) [
  | inl newline ↦ rw newline (new_line-IsOnScreen t ok)
  | inr e1 ↦ elim (Bool-cases (c == 13)) [
    | inl return ↦
        rw e1 (rw return (record { row_bound = ok.row_bound; column_bound = omega arith }))
    | inr e2 ↦ elim (Bool-cases (c == 9)) [
      | inl tabbed ↦ rw e1 (rw e2 (rw tabbed (tab-IsOnScreen t ok)))
      | inr e3 ↦ elim (Bool-cases (c == 8)) [
        | inl back ↦ rw e1 (rw e2 (rw e3 (rw back (backspace-EndsOnScreen t ok))))
        | inr e4 ↦ rw e1 (rw e2 (rw e3 (rw e4 (put_plain-EndsOnScreen c t ok))))
      ]
    ]
  ]
]

write_rest :
    (s : Text) (r : Option Terminal)
    → EndsOnScreen r
    → ((t : Terminal) → IsOnScreen t → EndsOnScreen (terminal_write s t))
    → EndsOnScreen (r >>= λ t. terminal_write s t)
write_rest s none ok again = absurd ok
write_rest s (some t) ok again = again t ok

-- Every text can be written: from a cursor on the screen `terminal_write` never writes outside it.
pub terminal_write-EndsOnScreen :
    (s : Text) (t : Terminal) → IsOnScreen t → EndsOnScreen (terminal_write s t)
unfolding terminal_write
terminal_write-EndsOnScreen [] t ok = ok
terminal_write-EndsOnScreen (c ∷ s) t ok =
    write_rest s (terminal_putchar c t) (terminal_putchar-EndsOnScreen c t ok)
      (λ t1 ok1. terminal_write-EndsOnScreen s t1 ok1)
