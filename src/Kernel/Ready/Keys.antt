-- ===== src/Kernel/Ready/Keys.antt =====
-- `keyboard_handler` of src/kernel/kernel.c keeps the invariant of the kernel.
use phantom_os.Prelude.{
  ◌⊎◌, if◌then◌else◌, true, ℕ, ◌-◌, ◌%◌, ◌<◌, ◌≡◌, refl, arith, Bool, false, ◌||◌, ◌&&◌, not,
  Bool-cases, inl, inr, ltb, leb, ◌==◌, Option, none, some, [], ◌∷◌, ◌++◌, length, length-append,
  length-take, take, Ends, ends, Ends-bind, Ends-map, Ends-if,
}
use phantom_os.CString.{Text}
use phantom_os.FileSystem.Operations.Change.{PathsFit}
use phantom_os.Terminal.Cursor.{terminal_putchar-EndsOnScreen}
use phantom_os.Editor.{Editor}
use phantom_os.Editor.Keys.{is_exiting}
use phantom_os.Editor.Session.{IsSession, BackspaceFits}
use phantom_os.Editor.Saving.Keys.{editor_process_key-IsEditing}
use phantom_os.Editor.Screen.{editor_draw-IsOnScreen}
use phantom_os.Keyboard.{table_size}
use phantom_os.Keyboard.Layouts.{Covers, translate-Ends}
use phantom_os.Kernel.{Kernel, shell_prompt}
use phantom_os.Kernel.Handler.{
  key_char, leave_editor, editor_key, put_key, enter_line, shell_char, shell_backspace, shell_key,
  press, handle_byte, acknowledge, keyboard_handler,
}
use phantom_os.Kernel.Ready.{IsReady, print-IsReady, ends_on_screen}
use phantom_os.Kernel.Ready.Commands.{cleared-IsReady, process_command-IsReady}

-- What the key press relies on: room for the paths of the directories, and, for a backspace in the
-- insert mode of the editor at the start of a line below the first, for the line that is joined to
-- the one above.
pub record HasRoom (scancode : ℕ) (k : Kernel) : Type 0 where
  pub paths : PathsFit k.fs
  pub join : (e : Editor) → k.current_editor ≡ some e → BackspaceFits scancode e

shell_prompt-IsReady : {k : Kernel} → IsReady k → Ends IsReady (shell_prompt k)
unfolding shell_prompt
shell_prompt-IsReady h = print-IsReady _ h

put_key-SameFiles :
    (c : ℕ) {k : Kernel} → IsReady k → Ends (λ k'. IsReady k' × (k'.fs ≡ k.fs)) (put_key c k)
put_key-SameFiles c {k} h =
    Ends-bind (ends_on_screen _ (terminal_putchar-EndsOnScreen c k.terminal h.on_screen)) (λ t on.
      ends (
        record {
          files = h.files;
          on_screen = on;
          input_bound = h.input_bound;
          editing = h.editing;
        },
        refl,
      ))

-- The same with another command line.
put_line-IsReady :
    (c : ℕ) (line : Text) {k : Kernel}
    → IsReady k
    → length line < 256
    → Ends IsReady (put_key c (record k { input = line }))
put_line-IsReady c line {k} h short =
    Ends-map
      (put_key-SameFiles c (record {
        files = h.files;
        on_screen = h.on_screen;
        input_bound = short;
        editing = h.editing;
      }))
      (λ k' p. p.0)

enter_line-IsReady : {k : Kernel} → IsReady k → PathsFit k.fs → Ends IsReady (enter_line k)
unfolding enter_line
enter_line-IsReady {k} h fit = Ends-bind (put_key-SameFiles 10 h) (λ k1 p.
    Ends-bind (process_command-IsReady k1.input p.0 (rw p.1 fit))
      (λ k2 h2. Ends-if k2.halted (ends h2) (prompted h2)))
  where
    prompted : {k2 : Kernel} → IsReady k2 → Ends IsReady (shell_prompt (record k2 { input = [] }))
    prompted h2 = shell_prompt-IsReady (record {
      files = h2.files;
      on_screen = h2.on_screen;
      input_bound = omega arith;
      editing = h2.editing;
    })

shell_char-IsReady :
    (c : ℕ) {k : Kernel} → IsReady k → PathsFit k.fs → Ends IsReady (shell_char c k)
unfolding shell_char
shell_char-IsReady c {k} h fit = Ends-if (c == 0) (ends h) (
    Ends-if (c == 10) (enter_line-IsReady h fit) (elim (Bool-cases (ltb (length k.input) 255)) [
      | inl room ↦ rw room (
          put_line-IsReady c (k.input ++ c ∷ []) h
            (ground (arith, room, length-append k.input (c ∷ []))))
      | inr full ↦ rw full (ends h)
    ]))

shell_backspace-IsReady : {k : Kernel} → IsReady k → Ends IsReady (shell_backspace k)
unfolding shell_backspace
shell_backspace-IsReady {k} h =
    Ends-if (ltb 0 (length k.input))
      (put_line-IsReady 8 (take (length k.input - 1) k.input) h
        (omega (arith, length-take (length k.input - 1) k.input, h.input_bound)))
      (ends h)

-- The character of a key that the layout covers.
pub key_char-Ends :
    (scancode : ℕ) (k : Kernel)
    → Covers k.use_german_layout scancode
    → Ends (λ _. Unit) (key_char scancode k)
unfolding key_char
key_char-Ends scancode k (inl within) =
    Ends-if (ltb scancode table_size)
      (translate-Ends k.use_german_layout k.shift_pressed k.caps_lock scancode within) (ends tt)
key_char-Ends scancode k (inr behind) =
    let no_entry : ltb scancode table_size ≡ false = ground (arith, behind) in rw no_entry (ends tt)

shell_key-IsReady :
    (scancode : ℕ) {k : Kernel}
    → IsReady k
    → PathsFit k.fs
    → Covers k.use_german_layout scancode
    → Ends IsReady (shell_key scancode k)
unfolding shell_key
shell_key-IsReady scancode {k} h fit (inl within) =
    Ends-if (ltb scancode table_size)
      (Ends-bind (translate-Ends k.use_german_layout k.shift_pressed k.caps_lock scancode within)
        (λ c _. shell_char-IsReady c h fit))
      (Ends-if (scancode == 14) (shell_backspace-IsReady h) (ends h))
shell_key-IsReady scancode h fit (inr behind) =
    let no_entry : ltb scancode table_size ≡ false = ground (arith, behind) in
    rw no_entry (Ends-if (scancode == 14) (shell_backspace-IsReady h) (ends h))

leave_editor-IsReady : {k : Kernel} → IsReady k → Ends IsReady (leave_editor k)
unfolding leave_editor
leave_editor-IsReady {k} h =
    let h1 = cleared-IsReady h in
    shell_prompt-IsReady (record {
      files = h1.files;
      on_screen = h1.on_screen;
      input_bound = h1.input_bound;
      editing = λ e at. absurd (cc (at));
    })

editor_key-IsReady :
    (scancode : ℕ) {e : Editor} {k : Kernel}
    → IsReady k
    → IsSession e
    → BackspaceFits scancode e
    → Covers k.use_german_layout scancode
    → Ends IsReady (editor_key scancode e k)
unfolding editor_key
editor_key-IsReady scancode {e} {k} h ok fits covers =
    Ends-bind (key_char-Ends scancode k covers) (λ ascii _.
      Ends-bind (editor_process_key-IsEditing ascii scancode ok fits h.files) (λ r edited.
        Ends-bind (editor_draw-IsOnScreen k.terminal edited.session) (λ t on.
          let h1 : IsReady (record k { fs = r.1; terminal = t; current_editor = some r.0 }) =
            record {
              files = edited.files;
              on_screen = on;
              input_bound = h.input_bound;
              editing = λ e' at. rw (the at) edited.session;
            } in
          Ends-if (is_exiting r.0.mode) (leave_editor-IsReady h1) (ends h1))))
  where
    the : {e e' : Editor} → some e ≡ some e' → e' ≡ e
    the at = cc (at)

press-IsReady :
    (scancode : ℕ) {k : Kernel}
    → IsReady k
    → HasRoom scancode k
    → Covers k.use_german_layout scancode
    → Ends IsReady (press scancode k)
unfolding press
press-IsReady scancode {k} h room covers = by_editor k.current_editor refl
  where
    by_editor :
        (o : Option Editor)
        → k.current_editor ≡ o
        → Ends IsReady (elim o [ some e ↦ editor_key scancode e k | none ↦ shell_key scancode k ])
    by_editor none at = shell_key-IsReady scancode h room.paths covers
    by_editor (some e) at = editor_key-IsReady scancode h (h.editing e at) (room.join e at) covers

-- Every byte from the keyboard is handled without a fault, where its scancode is in the table of the
-- layout.
handle_byte-IsReady :
    (byte : ℕ) {k : Kernel}
    → IsReady k
    → HasRoom (byte % 256) k
    → Covers k.use_german_layout (byte % 128)
    → Ends IsReady (handle_byte byte k)
unfolding handle_byte
handle_byte-IsReady byte {k} h room covers =
    let released = leb 128 (byte % 256) in
    let scancode = byte % 128 in
    Ends-if (scancode == 42 || scancode == 54) (ends (same_rest h)) (
      Ends-if (scancode == 58 && not released) (ends (same_rest h))
        (by_release (Bool-cases released)))
  where
    by_release :
        (leb 128 (byte % 256) ≡ true) ⊎ (leb 128 (byte % 256) ≡ false)
        → Ends IsReady (if leb 128 (byte % 256) then some k else press (byte % 128) k)
    by_release (inl up) = rw up (ends h)
    by_release (inr down) =
        let same : byte % 256 ≡ byte % 128 = ground (arith, down) in
        rw down (press-IsReady (byte % 128) h (rw same at room) covers)

    same_rest :
        {shift caps : Bool}
        → IsReady k
        → IsReady (record k { shift_pressed = shift; caps_lock = caps })
    same_rest h = record {
      files = h.files;
      on_screen = h.on_screen;
      input_bound = h.input_bound;
      editing = h.editing;
    }

acknowledge-IsReady : {k : Kernel} → IsReady k → IsReady (acknowledge k)
unfolding acknowledge
acknowledge-IsReady h = record {
  files = h.files;
  on_screen = h.on_screen;
  input_bound = h.input_bound;
  editing = h.editing;
}

pub keyboard_handler-IsReady :
    (byte : ℕ) {k : Kernel}
    → IsReady k
    → HasRoom (byte % 256) k
    → Covers k.use_german_layout (byte % 128)
    → Ends IsReady (keyboard_handler byte k)
unfolding keyboard_handler
keyboard_handler-IsReady byte h room covers =
    Ends-bind (handle_byte-IsReady byte h room covers) (λ k' h'. ends (acknowledge-IsReady h'))
