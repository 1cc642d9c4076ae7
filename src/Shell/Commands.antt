-- ===== src/Shell/Commands.antt =====
-- `process_command` of src/kernel/kernel.c.
use phantom_os.Prelude.{Option, some, List, [], ◌∷◌, if◌then◌else◌}
use phantom_os.CString.{Text, codes}
use phantom_os.CString.Compare.{text_eq}
use phantom_os.Kernel.{Kernel}
use phantom_os.Shell.{parse_command_args}
use phantom_os.Shell.Basic.{
  cmd_help, cmd_clear, cmd_version, cmd_exit, cmd_echo, cmd_kbd, cmd_unknown,
}
use phantom_os.Shell.Listing.{cmd_pwd, cmd_ls, cmd_cat, cmd_stat, cmd_tree}
use phantom_os.Shell.Files.{
  cmd_cd, cmd_mkdir, cmd_rmdir, cmd_touch, cmd_rm, cmd_cp, cmd_mv, cmd_write, run_editor,
}

-- A command's name, and what it does.
abbrev pub Command : Type 0
Command = Text × (Kernel → Option Kernel)

-- The chain of tests, in its order.
abbrev pub commands : Text → Text → List Command
commands arg1 arg2 =
    (codes "help", cmd_help)
    ∷ (codes "clear", cmd_clear)
    ∷ (codes "version", cmd_version)
    ∷ (codes "exit", cmd_exit)
    ∷ (codes "pwd", cmd_pwd)
    ∷ (codes "echo", cmd_echo arg1 arg2)
    ∷ (codes "ls", cmd_ls arg1)
    ∷ (codes "cd", cmd_cd arg1)
    ∷ (codes "mkdir", cmd_mkdir arg1)
    ∷ (codes "rmdir", cmd_rmdir arg1)
    ∷ (codes "touch", cmd_touch arg1)
    ∷ (codes "rm", cmd_rm arg1)
    ∷ (codes "cp", cmd_cp arg1 arg2)
    ∷ (codes "mv", cmd_mv arg1 arg2)
    ∷ (codes "cat", cmd_cat arg1)
    ∷ (codes "write", cmd_write arg1 arg2)
    ∷ (codes "stat", cmd_stat arg1)
    ∷ (codes "tree", cmd_tree arg1)
    ∷ (codes "edit", run_editor arg1)
    ∷ (codes "vi", run_editor arg1)
    ∷ (codes "kbd", cmd_kbd arg1)
    ∷ []

-- The first command of that name, or else `other`.
unfoldable pub run_first : Text → List Command → (Kernel → Option Kernel) → Kernel → Option Kernel
run_first cmd [] other = other
run_first cmd (c ∷ cs) other =
    let rest = run_first cmd cs other in if text_eq cmd c.0 then c.1 else rest

unfoldable pub process_command : Text → Kernel → Option Kernel
process_command [] k = some k
process_command (c ∷ t) k =
    let p = parse_command_args (c ∷ t) in
    run_first p.cmd (commands p.arg1 p.arg2) (cmd_unknown p.cmd) k
