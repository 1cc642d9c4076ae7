-- ===== src/Kernel/Ready/Commands.antt =====
-- `process_command` of src/kernel/kernel.c keeps the invariant of the kernel, whatever the line is.
use phantom_os.Prelude.{
  ◌<◌, ◌≡◌, arith, Bool, true, false, if◌then◌else◌, ltb, Option, some, List, [], ◌∷◌, length, Ends,
  ends, Ends-bind, Ends-if,
}
use phantom_os.CString.{Text, codes}
use phantom_os.CString.Compare.{text_eq}
use phantom_os.FileSystem.{Fs}
use phantom_os.FileSystem.Operations.Files.{IsFiles}
use phantom_os.FileSystem.Operations.Change.{PathsFit}
use phantom_os.Terminal.{terminal_clear}
use phantom_os.Editor.{Editor}
use phantom_os.Editor.Session.{IsSession}
use phantom_os.Editor.Opening.{named-IsSession, editor_open-IsSession}
use phantom_os.Editor.Screen.{editor_draw-IsOnScreen}
use phantom_os.Kernel.{Kernel}
use phantom_os.Kernel.Ready.{IsReady, print-IsReady}
use phantom_os.Kernel.Ready.Listing.{
  cmd_ls-IsReady, cmd_cat-IsReady, cmd_stat-IsReady, cmd_tree-IsReady,
}
use phantom_os.Kernel.Ready.Files.{cmd_cd-IsReady, cmd_mkdir-IsReady, cmd_touch-IsReady}
use phantom_os.Kernel.Ready.Contents.{
  cmd_rmdir-IsReady, cmd_rm-IsReady, cmd_cp-IsReady, cmd_mv-IsReady, cmd_write-IsReady,
}
use phantom_os.Shell.{parse_command_args}
use phantom_os.Shell.Bounds.{parse_command_args-FitsParse}
use phantom_os.Shell.Basic.{
  is_empty, cmd_help, cmd_clear, cmd_version, cmd_exit, cmd_echo, cmd_kbd, cmd_unknown, help_text,
  echo_text,
}
use phantom_os.Shell.Listing.{cmd_pwd}
use phantom_os.Shell.Files.{opened, run_editor}
use phantom_os.Shell.Commands.{Command, commands, run_first, process_command}

-- `clear_screen` leaves the cursor in the first cell.
pub cleared-IsReady :
    {k : Kernel} → IsReady k → IsReady (record k { terminal = terminal_clear k.terminal })
unfolding terminal_clear
cleared-IsReady h = record {
  files = h.files;
  on_screen = record { row_bound = omega arith; column_bound = omega arith };
  input_bound = h.input_bound;
  editing = h.editing;
}

cmd_exit-IsReady : {k : Kernel} → IsReady k → Ends IsReady (cmd_exit k)
unfolding cmd_exit
cmd_exit-IsReady h = Ends-bind (print-IsReady _ h) (λ k1 h1. ends (record {
  files = h1.files;
  on_screen = h1.on_screen;
  input_bound = h1.input_bound;
  editing = h1.editing;
}))

with_layout :
    (german : Bool) {k : Kernel} → IsReady k → IsReady (record k { use_german_layout = german })
with_layout german h = record {
  files = h.files;
  on_screen = h.on_screen;
  input_bound = h.input_bound;
  editing = h.editing;
}

cmd_kbd-IsReady : (arg1 : Text) {k : Kernel} → IsReady k → Ends IsReady (cmd_kbd arg1 k)
unfolding cmd_kbd
cmd_kbd-IsReady arg1 h = Ends-if (is_empty arg1) (print-IsReady _ h) (
    Ends-if (text_eq arg1 (codes "de")) (print-IsReady _ (with_layout true h)) (
      Ends-if (text_eq arg1 (codes "us")) (print-IsReady _ (with_layout false h))
        (print-IsReady _ h)))

opened-IsSession :
    (filename : Text) {s : Fs}
    → IsFiles s
    → length filename < 64
    → Ends IsSession (opened filename s)
unfolding opened
opened-IsSession filename ok short =
    let fits : ltb (length filename) 64 ≡ true = ground (arith, short) in
    Ends-if (is_empty filename) (ends (named-IsSession (codes "untitled.txt") (omega arith)))
      (rw fits (editor_open-IsSession filename ok short))

run_editor-IsReady :
    (arg1 : Text) {k : Kernel} → IsReady k → length arg1 < 64 → Ends IsReady (run_editor arg1 k)
unfolding run_editor
run_editor-IsReady arg1 {k} h short = Ends-bind (opened-IsSession arg1 h.files short) (λ e ok.
    Ends-bind (editor_draw-IsOnScreen k.terminal ok) (λ t on. ends (record {
      files = h.files;
      on_screen = on;
      input_bound = h.input_bound;
      editing = λ e' at. rw (the at) ok;
    })))
  where
    the : {e e' : Editor} → some e ≡ some e' → e' ≡ e
    the at = cc (at)

-- Every command of a list ends with the invariant.
data AllReady (k : Kernel) : List Command → Type 0 where
  no_more : AllReady k []
  also :
      {c : Command} {cs : List Command} → Ends IsReady (c.1 k) → AllReady k cs → AllReady k (c ∷ cs)

run_first-IsReady :
    (cmd : Text) (other : Kernel → Option Kernel) {k : Kernel} {cs : List Command}
    → AllReady k cs
    → Ends IsReady (other k)
    → Ends IsReady (run_first cmd cs other k)
unfolding run_first
run_first-IsReady cmd other no_more no_command = no_command
run_first-IsReady cmd other (also {c} h hs) no_command =
    first (text_eq cmd c.0) c.1 (run_first cmd _ other) h
      (run_first-IsReady cmd other hs no_command)
  where
    first :
        {k : Kernel} (b : Bool) (f g : Kernel → Option Kernel)
        → Ends IsReady (f k)
        → Ends IsReady (g k)
        → Ends IsReady ((if b then f else g) k)
    first true f g h h' = h
    first false f g h h' = h'

commands-AllReady :
    (arg1 arg2 : Text) {k : Kernel}
    → IsReady k
    → PathsFit k.fs
    → length arg1 < 64
    → length arg2 < 64
    → AllReady k (commands arg1 arg2)
unfolding cmd_help cmd_clear cmd_version cmd_echo cmd_pwd
commands-AllReady arg1 arg2 h fit short1 short2 = also (print-IsReady help_text h) (
    also (ends (cleared-IsReady h)) (
      also (print-IsReady _ h) (
        also (cmd_exit-IsReady h) (
          also (print-IsReady _ h) (
            also (print-IsReady (echo_text arg1 arg2) h) (
              also (cmd_ls-IsReady arg1 h) (
                also (cmd_cd-IsReady arg1 h fit) (
                  also (cmd_mkdir-IsReady arg1 h) (
                    also (cmd_rmdir-IsReady arg1 h) (
                      also (cmd_touch-IsReady arg1 h) (
                        also (cmd_rm-IsReady arg1 h) (
                          also (cmd_cp-IsReady arg1 arg2 h short2) (
                            also (cmd_mv-IsReady arg1 arg2 h short2) (
                              also (cmd_cat-IsReady arg1 h) (
                                also (cmd_write-IsReady arg1 arg2 h short2) (
                                  also (cmd_stat-IsReady arg1 h) (
                                    also (cmd_tree-IsReady arg1 h) (
                                      also (run_editor-IsReady arg1 h short1) (
                                        also (run_editor-IsReady arg1 h short1)
                                          (also (cmd_kbd-IsReady arg1 h) no_more))))))))))))))))))))

-- Every command line ends without a fault, where there is room for the paths of the directories.
pub process_command-IsReady :
    (line : Text) {k : Kernel} → IsReady k → PathsFit k.fs → Ends IsReady (process_command line k)
unfolding process_command cmd_unknown
process_command-IsReady [] h fit = ends h
process_command-IsReady (c ∷ t) h fit =
    let fits = parse_command_args-FitsParse (c ∷ t) in
    let p = parse_command_args (c ∷ t) in
    run_first-IsReady p.cmd (cmd_unknown p.cmd)
      (commands-AllReady p.arg1 p.arg2 h fit fits.arg1_bound fits.arg2_bound) (print-IsReady _ h)
