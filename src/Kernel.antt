-- ===== src/Kernel.antt =====
-- The state of the kernel, src/kernel/kernel.c, and what it writes on the terminal.
pub mod Start
pub mod Ready
pub mod Handler
pub mod Runs
pub mod Typing
pub mod Texts
pub mod Removing
pub mod Keys
pub mod Leaving
mod Tests
use phantom_os.Prelude.{ℕ, Bool, true, false, Option, none, some, List, [], ◌∷◌, ◌++◌, ◌>>=◌}
use Prim.Native.String.{String}
use phantom_os.CString.{Text, codes}
use phantom_os.FileSystem.{Fs}
use phantom_os.Terminal.{
  VgaColor, vga_black, vga_white, vga_light_green, vga_light_blue, Terminal, vga_entry_color,
  terminal_setcolor, terminal_writestring,
}
use phantom_os.Editor.{Editor}

-- `input` is the part of `input_buffer` before `input_length`. `current_editor` is NULL exactly if
-- `editor_active` is 0. A halted processor takes no interrupt. `acknowledged` counts the end-of-
-- interrupt commands, `outb(0x20, 0x20)`, which are all that the handler writes to ports.
pub record Kernel : Type 0 where
  pub fs : Fs
  pub terminal : Terminal
  pub input : Text
  pub shift_pressed : Bool
  pub caps_lock : Bool
  pub use_german_layout : Bool
  pub current_editor : Option Editor
  pub halted : Bool
  pub acknowledged : ℕ

-- `terminal_writestring` and `terminal_setcolor`.
pub data Output : Type 0 where
  write : Text → Output
  color : ℕ → Output

abbrev pub say : String → Output
say s = write (codes s)

-- A colour on black.
abbrev pub paint : VgaColor → Output
paint c = color (vga_entry_color c vga_black)

abbrev pub output_one : Output → Terminal → Option Terminal
output_one (write s) t = terminal_writestring s t
output_one (color c) t = some (terminal_setcolor c t)

unfoldable pub output : List Output → Terminal → Option Terminal
output [] t = some t
output (o ∷ os) t = output_one o t >>= λ t1. output os t1

-- A sequence of calls of the terminal.
unfoldable pub print : List Output → Kernel → Option Kernel
print os k = output os k.terminal >>= λ t. some (record k { terminal = t })

unfoldable pub shell_prompt : Kernel → Option Kernel
shell_prompt k =
    print
      (paint vga_light_green
        ∷ say "phantom"
        ∷ paint vga_white
        ∷ say ":"
        ∷ paint vga_light_blue
        ∷ write k.fs.current_path
        ∷ paint vga_white
        ∷ say "$ "
        ∷ [])
      k
