-- ===== src/Kernel/Keys.antt =====
-- Single keys of the shell in `keyboard_handler` of src/kernel/kernel.c.
use phantom_os.Prelude.{◌≡◌, refl, Bool, true, false, Option, none, some, ◌>>=◌}
use phantom_os.Keyboard.{read_at, translate}
use phantom_os.Kernel.{Kernel}
use phantom_os.Editor.{Editor}
use phantom_os.Kernel.Handler.{
  editor_key, shell_char, shell_key, press, handle_byte, acknowledge, keyboard_handler,
}

translate-backspace : (german shift caps : Bool) → translate german shift caps 14 ≡ some 0
unfolding translate read_at
translate-backspace true true true = refl
translate-backspace true true false = refl
translate-backspace true false true = refl
translate-backspace true false false = refl
translate-backspace false true true = refl
translate-backspace false true false = refl
translate-backspace false false true = refl
translate-backspace false false false = refl

handle_byte-backspace : (k : Kernel) → k.current_editor ≡ none → handle_byte 14 k ≡ some k
unfolding handle_byte press shell_key shell_char
handle_byte-backspace k shell = in_shell k.current_editor shell
  where
    key : shell_key 14 k ≡ some k
    key = rw (translate-backspace k.use_german_layout k.shift_pressed k.caps_lock, ◌>>=◌) refl

    in_shell :
        (o : Option Editor)
        → o ≡ none
        → (elim o [ some e ↦ editor_key 14 e k | none ↦ shell_key 14 k ]) ≡ some k
    in_shell o is = rw is key

-- In the shell the backspace key does nothing but to end the interrupt: its scancode 14 is below the
-- size of the tables, so the branch that shortens the command line is not reached.
pub keyboard_handler-backspace :
    (k : Kernel) → k.current_editor ≡ none → keyboard_handler 14 k ≡ some (acknowledge k)
unfolding keyboard_handler
keyboard_handler-backspace k shell = rw (handle_byte-backspace k shell, ◌>>=◌) refl
