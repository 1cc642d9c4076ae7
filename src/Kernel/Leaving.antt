-- ===== src/Kernel/Leaving.antt =====
-- How the editor is left: `editor_process_command` of src/kernel/editor.c and `keyboard_handler` of
-- src/kernel/kernel.c.
use phantom_os.Prelude.{
  ℕ, ◌≡◌, refl, arith, Bool, true, false, Option, none, some, inl, [], Ends, Ends-bind, Ends-map,
  ◌>>=◌, ends,
}
use phantom_os.CString.{codes}
use phantom_os.CString.Compare.{text_eq}
use phantom_os.FileSystem.{Fs}
use phantom_os.Terminal.{terminal_clear}
use phantom_os.Editor.{command, exiting, Editor}
use phantom_os.Editor.Keys.{
  run_command, editor_process_command, command_key, mode_key, editor_process_key,
}
use phantom_os.Editor.Screen.{editor_draw-IsOnScreen}
use phantom_os.Editor.Session.{IsSession}
use phantom_os.Keyboard.Layouts.{Covers}
use phantom_os.Kernel.{Kernel, shell_prompt}
use phantom_os.Kernel.Handler.{
  leave_editor, editor_key, shell_key, press, handle_byte, acknowledge, keyboard_handler,
}
use phantom_os.Kernel.Ready.{print-Printed}
use phantom_os.Kernel.Ready.Keys.{key_char-Ends}

-- The editor after the command "q!".
abbrev left : Editor → Editor
left e = record e { mode = exiting; command_buffer = [] }

process_key-quit :
    (key : ℕ) (e : Editor) (s : Fs)
    → e.mode ≡ command
    → e.command_buffer ≡ codes "q!"
    → editor_process_key key 28 e s ≡ some (left e, s)
unfolding editor_process_key mode_key command_key editor_process_command run_command text_eq
process_key-quit key e s mode buffer = rw mode (rw buffer refl)

-- The shell after the editor: its state otherwise stays.
pub record HasLeft (k k' : Kernel) : Type 0 where
  pub in_shell : k'.current_editor ≡ none
  pub same_files : k'.fs ≡ k.fs
  pub same_line : k'.input ≡ k.input

leave_editor-HasLeft : (k : Kernel) → Ends (HasLeft k) (leave_editor k)
unfolding leave_editor shell_prompt terminal_clear
leave_editor-HasLeft k =
    Ends-map
      (print-Printed (record k { current_editor = none; terminal = terminal_clear k.terminal }) _
        (record { row_bound = omega arith; column_bound = omega arith }))
      (λ k' p.
        let (t, is, on) = p in
        rw is (record { in_shell = refl; same_files = refl; same_line = refl }))

left-IsSession : {e : Editor} → IsSession e → IsSession (left e)
left-IsSession h = record {
  text = record {
    lines_min = h.text.lines_min;
    lines_max = h.text.lines_max;
    row_bound = h.text.row_bound;
    column_bound = h.text.column_bound;
    rows = h.text.rows;
  };
  command_bound = omega arith;
  name_bound = h.name_bound;
  status_bound = h.status_bound;
}

editor_key-quit :
    (k : Kernel) {e : Editor}
    → IsSession e
    → e.mode ≡ command
    → e.command_buffer ≡ codes "q!"
    → Ends (HasLeft k) (editor_key 28 e k)
unfolding editor_key
editor_key-quit k {e} ok mode buffer =
    Ends-bind (key_char-Ends 28 k (enter_covered k.use_german_layout)) (λ ascii _.
      rw (process_key-quit ascii e k.fs mode buffer, ◌>>=◌)
        (Ends-bind (editor_draw-IsOnScreen k.terminal (left-IsSession ok)) (λ t on.
          Ends-map
            (leave_editor-HasLeft (record k { terminal = t; current_editor = some (left e) }))
            (λ k' h. record {
              in_shell = h.in_shell;
              same_files = h.same_files;
              same_line = h.same_line;
            }))))
  where
    enter_covered : (german : Bool) → Covers german 28
    enter_covered true = inl (omega arith)
    enter_covered false = inl (omega arith)

handle_byte-HasLeft :
    (k : Kernel) (e : Editor)
    → k.current_editor ≡ some e
    → IsSession e
    → e.mode ≡ command
    → e.command_buffer ≡ codes "q!"
    → Ends (HasLeft k) (handle_byte 28 k)
unfolding handle_byte press
handle_byte-HasLeft k e active ok mode buffer = by_editor k.current_editor active
  where
    by_editor :
        (o : Option Editor)
        → o ≡ some e
        → Ends (HasLeft k) (elim o [ some e ↦ editor_key 28 e k | none ↦ shell_key 28 k ])
    by_editor o is = rw is (editor_key-quit k ok mode buffer)

acknowledge-HasLeft : {k k' : Kernel} → HasLeft k k' → HasLeft k (acknowledge k')
unfolding acknowledge
acknowledge-HasLeft h = record {
  in_shell = h.in_shell;
  same_files = h.same_files;
  same_line = h.same_line;
}

-- The Enter key behind the command q! leaves the editor, whatever was changed in it: the shell has its
-- command line again, and the file system stays.
pub keyboard_handler-HasLeft :
    (k : Kernel) (e : Editor)
    → k.current_editor ≡ some e
    → IsSession e
    → e.mode ≡ command
    → e.command_buffer ≡ codes "q!"
    → Ends (HasLeft k) (keyboard_handler 28 k)
unfolding keyboard_handler
keyboard_handler-HasLeft k e active ok mode buffer =
    Ends-bind (handle_byte-HasLeft k e active ok mode buffer) (λ k' h. ends (acknowledge-HasLeft h))
