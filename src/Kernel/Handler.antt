-- ===== src/Kernel/Handler.antt =====
-- `keyboard_handler` of src/kernel/kernel.c, for a byte that is read from the port of the keyboard.
use phantom_os.Prelude.{
  ℕ, ◌+◌, ◌-◌, ◌%◌, ◌||◌, ◌&&◌, not, Option, none, some, [], ◌∷◌, ◌++◌, ◌==◌, ltb, leb,
  if◌then◌else◌, length, take, ◌>>=◌,
}
use phantom_os.Terminal.{terminal_clear, terminal_putchar}
use phantom_os.Editor.{Editor}
use phantom_os.Editor.Keys.{is_exiting, editor_process_key}
use phantom_os.Editor.Draw.{editor_draw}
use phantom_os.Keyboard.{table_size, translate}
use phantom_os.Kernel.{Kernel, shell_prompt}
use phantom_os.Shell.Commands.{process_command}

-- The character of a key; a scancode behind the table has none.
unfoldable pub key_char : ℕ → Kernel → Option ℕ
key_char scancode k =
    if ltb scancode table_size
    then translate k.use_german_layout k.shift_pressed k.caps_lock scancode
    else some 0

-- The editor is left: the screen is cleared and the prompt written.
unfoldable pub leave_editor : Kernel → Option Kernel
leave_editor k =
    shell_prompt (record k { current_editor = none; terminal = terminal_clear k.terminal })

-- A key press in the editor.
unfoldable pub editor_key : ℕ → Editor → Kernel → Option Kernel
editor_key scancode e k = key_char scancode k >>= λ ascii.
    editor_process_key ascii scancode e k.fs >>= λ r. editor_draw r.0 k.terminal >>= λ t.
    let k1 = record k { fs = r.1; terminal = t; current_editor = some r.0 } in
    if is_exiting r.0.mode then leave_editor k1 else some k1

-- `terminal_putchar(c)`
abbrev pub put_key : ℕ → Kernel → Option Kernel
put_key c k = terminal_putchar c k.terminal >>= λ t. some (record k { terminal = t })

-- Enter: the command line is carried out. A halted processor goes no further.
unfoldable pub enter_line : Kernel → Option Kernel
enter_line k = put_key 10 k >>= λ k1. process_command k1.input k1 >>= λ k2.
    if k2.halted then some k2 else shell_prompt (record k2 { input = [] })

-- A character for the command line; `input_buffer` has 256 bytes.
unfoldable pub shell_char : ℕ → Kernel → Option Kernel
shell_char c k =
    if c == 0
    then some k
    else if c == 10
    then enter_line k
    else if ltb (length k.input) 255
    then put_key c (record k { input = k.input ++ c ∷ [] })
    else some k

-- The last character of the command line removed.
unfoldable pub shell_backspace : Kernel → Option Kernel
shell_backspace k =
    if ltb 0 (length k.input)
    then put_key 8 (record k { input = take (length k.input - 1) k.input })
    else some k

-- A key press in the shell.
unfoldable pub shell_key : ℕ → Kernel → Option Kernel
shell_key scancode k =
    if ltb scancode table_size
    then (translate k.use_german_layout k.shift_pressed k.caps_lock scancode >>= λ c.
        shell_char c k)
    else if scancode == 14
    then shell_backspace k
    else some k

-- A key press that is not Shift or Caps Lock.
unfoldable pub press : ℕ → Kernel → Option Kernel
press scancode k = elim k.current_editor [
  | some e ↦ editor_key scancode e k
  | none ↦ shell_key scancode k
]

-- `byte & 0x80` marks a release. The scancodes 42 and 54 are the Shift keys, 58 is Caps Lock.
unfoldable pub handle_byte : ℕ → Kernel → Option Kernel
handle_byte byte k =
    let released = leb 128 (byte % 256) in
    let scancode = byte % 128 in
    if scancode == 42 || scancode == 54
    then some (record k { shift_pressed = not released })
    else if scancode == 58 && not released
    then some (record k { caps_lock = not k.caps_lock })
    else if released
    then some k
    else press scancode k

-- `outb(0x20, 0x20)`, with which every path of the handler ends; `exit` halts the processor before.
unfoldable pub acknowledge : Kernel → Kernel
acknowledge k = record k { acknowledged = if k.halted then k.acknowledged else k.acknowledged + 1 }

unfoldable pub keyboard_handler : ℕ → Kernel → Option Kernel
keyboard_handler byte k = handle_byte byte k >>= λ k'. some (acknowledge k')
