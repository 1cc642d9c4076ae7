-- ===== src/Kernel/Tests.antt =====
-- The kernel after its start, and its first keys.
use phantom_os.Prelude.{
  ◌∷◌, ◌++◌, ◌>>=◌, ℕ, ◌≡◌, ◌≢◌, refl, arith, true, false, none, some, [], inl, Ends,
}
use phantom_os.CString.{codes}
use phantom_os.FileSystem.{pool_size}
use phantom_os.FileSystem.Invariant.Init.{initial, initial-only}
use phantom_os.FileSystem.Operations.Change.{PathsFit}
use phantom_os.FileSystem.Operations.Initial.{initial-IsFiles}
use phantom_os.FileSystem.Paths.{update_current_path}
use phantom_os.Interrupts.{IdtEntry}
use phantom_os.Interrupts.Start.{Cpu}
use phantom_os.Keyboard.Start.Answering.{answering, idle_bus}
use phantom_os.Terminal.{Terminal}
use phantom_os.Kernel.{Kernel}
use phantom_os.Editor.{command, Editor, editor_init}
use phantom_os.Editor.Session.{IsSession}
use phantom_os.Kernel.Leaving.{HasLeft, keyboard_handler-HasLeft}
use phantom_os.Kernel.Handler.{keyboard_handler, handle_byte, acknowledge}
use phantom_os.Kernel.Keys.{keyboard_handler-backspace}
use phantom_os.Kernel.Ready.{IsReady}
use phantom_os.Kernel.Typing.{Types, none_typed, one_typed, carried_out, presses-carried_out}
use phantom_os.Keyboard.{read_at, translate}
use phantom_os.Terminal.{terminal_write}
use phantom_os.Kernel.Ready.Listing.{Total, tree_print_node-Total}
use phantom_os.Kernel.Ready.Commands.{process_command-IsReady}
use phantom_os.Kernel.Ready.Keys.{HasRoom}
use phantom_os.Kernel.Runs.{presses, RoomAlong, presses-IsReady}
use phantom_os.Kernel.Start.{IsStarted, start_kernel, start_kernel-IsStarted}
use phantom_os.Shell.Commands.{process_command}
use phantom_os.Shell.Listing.{tree_print_node}
use phantom_os.Shell.Files.{cmd_rm}
use phantom_os.Kernel.Removing.{OnlyLost, cmd_rm-OnlyLost}
use phantom_os.Kernel.Ready.{with_fs-IsReady}
use phantom_os.FileSystem.Tests.Files.{with_note, note-NewFile, note_found}

abbrev cleared_idt : ℕ → IdtEntry
cleared_idt _ = record {
  offset_low = 0;
  selector = 0;
  zero_byte = 0;
  type_attr = 0;
  offset_high = 0;
}

abbrev dark_screen : Terminal
dark_screen = record { row = 0; column = 0; color = 7; buffer = λ i. 0 }

abbrev idle_cpu : Cpu answering
idle_cpu = record {
  bus = idle_bus;
  idt = cleared_idt;
  idt_pointer = record { limit = 0; base = 0 };
  loaded = none;
  interrupts = false;
}

start_kernel-IsStarted_example :
    Ends
      (IsStarted 1193046 4096 idle_cpu)
      (start_kernel answering 1193046 4096 idle_cpu dark_screen)
start_kernel-IsStarted_example =
    start_kernel-IsStarted answering 1193046 4096 idle_cpu dark_screen (omega arith)

-- The path of the root has room.
root_path : update_current_path (record initial { current_dir = some 0 }) ≢ none
unfolding update_current_path
root_path e = cc (e)

initial-PathsFit : PathsFit initial
initial-PathsFit p dir = let (at, is) = initial-only p dir.target dir.found in rw at root_path

-- A shell with an empty command line.
abbrev shell : Kernel
shell = record {
  fs = initial;
  terminal = dark_screen;
  input = [];
  shift_pressed = false;
  caps_lock = false;
  use_german_layout = true;
  current_editor = none;
  halted = false;
  acknowledged = 0;
}

shell-IsReady : IsReady shell
shell-IsReady = record {
  files = initial-IsFiles;
  on_screen = record { row_bound = omega arith; column_bound = omega arith };
  input_bound = omega arith;
  editing = λ e at. absurd (cc (at));
}

process_command-IsReady_example : Ends IsReady (process_command (codes "write note text") shell)
process_command-IsReady_example =
    process_command-IsReady (codes "write note text") shell-IsReady initial-PathsFit

tree_print_node-Total_example : Total (tree_print_node pool_size initial 0 0 true)
tree_print_node-Total_example =
    tree_print_node-Total pool_size 0 true initial-IsFiles refl (omega arith)

keyboard_handler-backspace_example :
    keyboard_handler 14 (record shell { input = codes "ls" })
    ≡ some (acknowledge (record shell { input = codes "ls" }))
keyboard_handler-backspace_example =
    keyboard_handler-backspace (record shell { input = codes "ls" }) refl

abbrev shifted : Kernel
shifted = record shell { shift_pressed = true; acknowledged = 1 }

press_shift : keyboard_handler 42 shell ≡ some shifted
unfolding keyboard_handler handle_byte acknowledge
press_shift = refl

shell-HasRoom : HasRoom 42 shell
shell-HasRoom = record { paths = initial-PathsFit; join = λ e at. absurd (cc (at)) }

shifted-RoomAlong : RoomAlong (30 ∷ []) shifted
shifted-RoomAlong = λ on. (
  record { paths = initial-PathsFit; join = λ e at. absurd (cc (at)) },
  inl (omega arith),
  λ k run. tt,
)

-- Shift and 'a'.
two_keys-RoomAlong : RoomAlong (42 ∷ 30 ∷ []) shell
two_keys-RoomAlong =
    λ on. (shell-HasRoom, inl (omega arith), λ k run. rw (the run) shifted-RoomAlong)
  where
    the : {k : Kernel} → keyboard_handler 42 shell ≡ some k → k ≡ shifted
    the run = cc (run, press_shift)

presses-IsReady_example : Ends IsReady (presses (42 ∷ 30 ∷ []) shell)
presses-IsReady_example = presses-IsReady (42 ∷ 30 ∷ []) shell-IsReady two_keys-RoomAlong

-- An editor with a changed text, in which "q!" is typed.
abbrev quitting : Editor
quitting = record editor_init { modified = true; mode = command; command_buffer = codes "q!" }

quitting-IsSession : IsSession quitting
quitting-IsSession = record {
  text = record {
    lines_min = omega arith;
    lines_max = omega arith;
    row_bound = omega arith;
    column_bound = omega arith;
    rows = λ i. omega arith;
  };
  command_bound = omega arith;
  name_bound = omega arith;
  status_bound = omega arith;
}

abbrev in_editor : Kernel
in_editor = record shell { current_editor = some quitting }

keyboard_handler-HasLeft_example : Ends (HasLeft in_editor) (keyboard_handler 28 in_editor)
keyboard_handler-HasLeft_example =
    keyboard_handler-HasLeft in_editor quitting refl quitting-IsSession refl refl

-- The keys of 'l' and 's'.
ls-Types : Types true false false (38 ∷ 31 ∷ []) (codes "ls")
unfolding translate read_at
ls-Types =
    one_typed 38 b'l' (omega arith) (omega arith) (omega arith) (omega arith) refl (omega arith)
      (omega arith)
      (one_typed 31 b's' (omega arith) (omega arith) (omega arith) (omega arith) refl (omega arith)
        (omega arith) none_typed)

presses-carried_out_example : presses (38 ∷ 31 ∷ 28 ∷ []) shell ≡ (
    terminal_write (codes "ls" ++ 10 ∷ []) dark_screen >>= λ t.
    carried_out (codes "ls") (record shell { input = codes "ls"; terminal = t; acknowledged = 2 })
    >>= λ k'. some (acknowledge k'))
presses-carried_out_example = presses-carried_out shell ls-Types refl refl refl (omega arith)

-- The shell with an empty file.
abbrev shell_with_note : Kernel
shell_with_note = record shell { fs = with_note }

cmd_rm-OnlyLost_example :
    Ends
      (λ k'. IsReady k' × OnlyLost note-NewFile.holds.node with_note k'.fs)
      (cmd_rm (codes "note") shell_with_note)
cmd_rm-OnlyLost_example =
    cmd_rm-OnlyLost shell_with_note b'n' (codes "ote") 224 note-NewFile.holds.node
      (with_fs-IsReady shell-IsReady note-NewFile.files) note_found note-NewFile.holds.file.cell
      note-NewFile.holds.file.file
