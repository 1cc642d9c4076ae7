-- ===== src/Shell/Basic.antt =====
-- The commands of the shell, src/kernel/kernel.c, that do not use the file system.
use phantom_os.Prelude.{Bool, true, false, Option, some, List, [], ◌∷◌, ◌>>=◌, if◌then◌else◌}
use phantom_os.CString.{Text, codes}
use phantom_os.CString.Compare.{text_eq}
use phantom_os.Terminal.{vga_white, vga_light_cyan, terminal_clear}
use phantom_os.Kernel.{Kernel, Output, write, say, paint, print}

abbrev pub is_empty : Text → Bool
is_empty [] = true
is_empty (c ∷ t) = false

abbrev pub help_text : List Output
help_text =
    say "PhantomOS Shell Commands (POSIX-compatible):\n\n"
    ∷ paint vga_light_cyan
    ∷ say "Basic Commands:\n"
    ∷ paint vga_white
    ∷ say "  help         - Show this help message\n"
    ∷ say "  clear        - Clear the screen\n"
    ∷ say "  echo <text>  - Echo text to the screen\n"
    ∷ say "  version      - Show OS version\n"
    ∷ say "  exit         - Halt the system\n\n"
    ∷ paint vga_light_cyan
    ∷ say "File System Commands:\n"
    ∷ paint vga_white
    ∷ say "  pwd          - Print working directory\n"
    ∷ say "  ls [dir]     - List directory contents\n"
    ∷ say "  cd <dir>     - Change directory\n"
    ∷ say "  mkdir <dir>  - Make directory\n"
    ∷ say "  rmdir <dir>  - Remove empty directory\n"
    ∷ say "  stat <file>  - Show file information\n\n"
    ∷ paint vga_light_cyan
    ∷ say "File Operations:\n"
    ∷ paint vga_white
    ∷ say "  touch <file> - Create empty file\n"
    ∷ say "  rm <file>    - Remove file\n"
    ∷ say "  cp <s> <d>   - Copy file\n"
    ∷ say "  mv <s> <d>   - Move/rename file\n"
    ∷ say "  cat <file>   - Display file contents\n"
    ∷ say "  write <file> <text> - Write text to file\n"
    ∷ say "  stat <file>  - Show file information\n"
    ∷ say "  tree [dir]   - Show directory tree\n"
    ∷ say "  edit <file>  - Edit file in text editor\n"
    ∷ say "  vi <file>    - Edit file (alias for edit)\n"
    ∷ say "  kbd <layout> - Set keyboard layout (de/us)\n"
    ∷ []

unfoldable pub cmd_help : Kernel → Option Kernel
cmd_help k = print help_text k

unfoldable pub cmd_clear : Kernel → Option Kernel
cmd_clear k = some (record k { terminal = terminal_clear k.terminal })

unfoldable pub cmd_version : Kernel → Option Kernel
cmd_version k =
    print
      (say "PhantomOS v0.4 - 32-bit Kernel with POSIX File System\n"
        ∷ say "Features: German/US keyboard layouts, uppercase support, vim-like editor\n"
        ∷ [])
      k

-- `cli; hlt` does not return.
unfoldable pub cmd_exit : Kernel → Option Kernel
cmd_exit k = print (say "Halting system...\n" ∷ []) k >>= λ k1. some (record k1 { halted = true })

-- A newline follows in any case.
abbrev pub echo_text : Text → Text → List Output
echo_text [] arg2 = say "\n" ∷ []
echo_text arg1 [] = write arg1 ∷ say "\n" ∷ []
echo_text arg1 arg2 = write arg1 ∷ say " " ∷ write arg2 ∷ say "\n" ∷ []

unfoldable pub cmd_echo : Text → Text → Kernel → Option Kernel
cmd_echo arg1 arg2 k = print (echo_text arg1 arg2) k

abbrev pub layout_text : Bool → Text
layout_text true = codes "German (QWERTZ)"
layout_text false = codes "US (QWERTY)"

unfoldable pub cmd_kbd : Text → Kernel → Option Kernel
cmd_kbd arg1 k =
    if is_empty arg1
    then print
        (say "Current keyboard layout: "
          ∷ write (layout_text k.use_german_layout)
          ∷ say "\n"
          ∷ say "Usage: kbd <de|us>\n"
          ∷ [])
        k
    else if text_eq arg1 (codes "de")
    then print (say "Keyboard layout switched to German (QWERTZ)\n" ∷ [])
        (record k { use_german_layout = true })
    else if text_eq arg1 (codes "us")
    then print (say "Keyboard layout switched to US (QWERTY)\n" ∷ [])
        (record k { use_german_layout = false })
    else print (say "kbd: invalid layout '" ∷ write arg1 ∷ say "'. Use 'de' or 'us'\n" ∷ []) k

unfoldable pub cmd_unknown : Text → Kernel → Option Kernel
cmd_unknown cmd k = print (say "bash: " ∷ write cmd ∷ say ": command not found\n" ∷ []) k
