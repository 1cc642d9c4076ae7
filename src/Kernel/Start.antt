-- ===== src/Kernel/Start.antt =====
-- `kernel_main` of src/kernel/kernel.c: its part before interrupts are on, and its part behind
-- `keyboard_init`.

use phantom_os.Ports.{Machine}
use phantom_os.Interrupts.Start.{Cpu, init_idt, IsMarked, IsLoaded, init_idt-IsLoaded}
use phantom_os.Prelude.{
  ℕ, ◌^◌, ◌<◌, ◌≡◌, refl, arith, true, false, Option, none, some, List, [], ◌∷◌, Ends, ends,
  Ends-bind, ◌>>=◌,
}
use phantom_os.FileSystem.{boot}
use phantom_os.FileSystem.Tree.{init}
use phantom_os.FileSystem.Invariant.Init.{initial, init-initial}
use phantom_os.FileSystem.Operations.Initial.{initial-IsFiles}
use phantom_os.Terminal.{vga_white, vga_light_cyan, vga_light_brown, Terminal, terminal_initialize}
use phantom_os.Terminal.Cursor.{IsOnScreen}
use phantom_os.Kernel.{Kernel, Output, write, say, paint, print, shell_prompt}
use phantom_os.Kernel.Ready.{IsReady, Printed, print-Printed, print-IsReady}

-- The state of the program when it is loaded; the memory of the screen is any.
abbrev loaded : Terminal → Kernel
loaded t = record {
  fs = boot;
  terminal = t;
  input = [];
  shift_pressed = false;
  caps_lock = false;
  use_german_layout = true;
  current_editor = none;
  halted = false;
  acknowledged = 0;
}

abbrev welcome : List Output
welcome =
    paint vga_light_cyan
    ∷ say "=== PhantomOS 32-bit Kernel ===\n"
    ∷ paint vga_white
    ∷ say "32-bit kernel with POSIX file system loaded!\n\n"
    ∷ say "Kernel initialized with:\n"
    ∷ say "  - VGA text mode output\n"
    ∷ say "  - Keyboard input handling\n"
    ∷ say "  - Interrupt system\n"
    ∷ say "  - In-memory file system\n"
    ∷ say "  - POSIX-compatible shell commands\n"
    ∷ say "  - Vim-like text editor\n"
    ∷ say "  - German/US keyboard layouts (type 'kbd' for info)\n\n"
    ∷ []

abbrev shell_welcome : List Output
shell_welcome =
    paint vga_light_brown
    ∷ say "Starting PhantomOS Shell...\n"
    ∷ say "Type 'help' for available commands.\n\n"
    ∷ paint vga_white
    ∷ []

-- `fs_init`, which says how it went.
unfoldable pub start_files : Kernel → Option Kernel
start_files k = let (message, s) = init k.fs in print (write message ∷ []) (record k { fs = s })

-- `kernel_main` up to the end of `init_idt`, which enables interrupts as its last step, so that none
-- comes before. `handler` and `base` are the addresses of the interrupt routine and the table.
unfoldable pub start_kernel :
    (m : Machine) (handler base : ℕ) → Cpu m → Terminal → Option (Kernel × Cpu m)
start_kernel m handler base cpu t = do
  k ← print welcome (loaded (terminal_initialize t))
  k ← start_files k
  (cpu, terminal) ← init_idt m handler base cpu k.terminal
  some (record k { terminal = terminal }, cpu)

-- `kernel_main` from the end of `keyboard_init` on, up to the loop that waits for interrupts.
unfoldable pub start_shell : Kernel → Option Kernel
start_shell k = do k ← print shell_welcome k; shell_prompt k

-- What the first part of `kernel_main` leaves.
pub record IsStarted {m : Machine} (handler base : ℕ) (cpu : Cpu m) (r : Kernel × Cpu m)
    : Type 0 where
  pub ready : IsReady r.0
  pub running : IsLoaded handler base cpu r.1
  pub in_root : r.0.fs ≡ initial
  pub no_line : r.0.input ≡ []
  pub in_shell : r.0.current_editor ≡ none
  pub not_halted : r.0.halted ≡ false

initialized-IsOnScreen : (t : Terminal) → IsOnScreen (terminal_initialize t)
unfolding terminal_initialize
initialized-IsOnScreen t = record { row_bound = omega arith; column_bound = omega arith }

with_initial : Terminal → Kernel
with_initial t = record (loaded t) { fs = initial }

with_initial-IsReady : {t : Terminal} → IsOnScreen t → IsReady (with_initial t)
unfolding with_initial
with_initial-IsReady on = record {
  files = initial-IsFiles;
  on_screen = on;
  input_bound = omega arith;
  editing = λ e at. absurd (cc (at));
}

start_files-Printed :
    {t : Terminal} → IsOnScreen t → Ends (Printed (with_initial t)) (start_files (loaded t))
unfolding start_files with_initial
start_files-Printed {t} on =
    rw (init-initial, print)
      (print-Printed (with_initial t) (say "File system initialized\n" ∷ []) on)

marked-IsOnScreen : {t t' : Terminal} → IsMarked t t' → IsOnScreen t → IsOnScreen t'
marked-IsOnScreen mark on = record {
  row_bound = rw mark.same_row on.row_bound;
  column_bound = rw mark.same_column on.column_bound;
}

started :
    {m : Machine} {handler base : ℕ} {cpu cpu' : Cpu m} {t : Terminal}
    → IsLoaded handler base cpu cpu'
    → IsOnScreen t
    → IsStarted handler base cpu (with_initial t, cpu')
unfolding with_initial
started h on = record {
  ready = with_initial-IsReady on;
  running = h;
  in_root = refl;
  no_line = refl;
  in_shell = refl;
  not_halted = refl;
}

-- From any memory of the screen and any interrupt table, with the interrupt routine at a 32-bit
-- address, `kernel_main` ends `init_idt` without a fault: the state is then well-formed, with the
-- initial file system, an empty command line and no editor; both interrupts lead to the routine and
-- no other entry of the table is changed; the table is loaded with the limit 2047, interrupts are on,
-- and exactly the commands for the interrupt controllers are sent.
pub start_kernel-IsStarted :
    (m : Machine) (handler base : ℕ) (cpu : Cpu m) (t : Terminal)
    → handler < 2 ^ 32
    → Ends (IsStarted handler base cpu) (start_kernel m handler base cpu t)
unfolding start_kernel with_initial
start_kernel-IsStarted m handler base cpu t word =
    Ends-bind (print-Printed (loaded (terminal_initialize t)) welcome (initialized-IsOnScreen t))
      (λ k p.
        let (t1, is1, on1) = p in
        rw is1 (
          Ends-bind (start_files-Printed on1) (λ k p.
            let (t2, is2, on2) = p in
            rw is2 (
              Ends-bind (init_idt-IsLoaded m handler base cpu t2 word)
                (λ r p. let (h, mark) = p in ends (started h (marked-IsOnScreen mark on2)))))))

-- Whatever interrupts came before, the shell then starts without a fault from a well-formed state.
pub start_shell-IsReady : {k : Kernel} → IsReady k → Ends IsReady (start_shell k)
unfolding start_shell shell_prompt
start_shell-IsReady h = Ends-bind (print-IsReady shell_welcome h) (λ k h1. print-IsReady _ h1)
