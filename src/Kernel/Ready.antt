-- ===== src/Kernel/Ready.antt =====
-- The invariant of the state of src/kernel/kernel.c, and that what the shell prints keeps it.
pub mod Listing
pub mod Files
pub mod Contents
pub mod Commands
pub mod Keys
use phantom_os.Prelude.{
  ℕ, ◌+◌, ◌<◌, ◌≡◌, refl, arith, Option, none, some, List, [], ◌∷◌, length, if◌then◌else◌, ◌>>=◌,
  Ends, ends, Ends-bind, Ends-map, Ends-if,
}
use phantom_os.CString.{Text, ℤ}
use phantom_os.FileSystem.{Fs}
use phantom_os.FileSystem.Transfer.{is_zero}
use phantom_os.FileSystem.Operations.Files.{IsFiles}
use phantom_os.FileSystem.Operations.Copy.{KeepsFiles}
use phantom_os.Terminal.{Terminal, terminal_setcolor, terminal_writestring}
use phantom_os.Terminal.Cursor.{IsOnScreen, EndsOnScreen, terminal_write-EndsOnScreen}
use phantom_os.Editor.{Editor}
use phantom_os.Editor.Session.{IsSession}
use phantom_os.Kernel.{Kernel, Output, write, color, output_one, output, print}
use phantom_os.Shell.Files.{with_fs, report}

-- The input buffer has 256 bytes.
pub record IsReady (k : Kernel) : Type 0 where
  pub files : IsFiles k.fs
  pub on_screen : IsOnScreen k.terminal
  pub input_bound : length k.input < 256
  pub editing : (e : Editor) → k.current_editor ≡ some e → IsSession e

pub ends_on_screen : (r : Option Terminal) → EndsOnScreen r → Ends IsOnScreen r
ends_on_screen none h = absurd h
ends_on_screen (some t) h = ends h

output_one-IsOnScreen :
    (o : Output) {t : Terminal} → IsOnScreen t → Ends IsOnScreen (output_one o t)
unfolding terminal_setcolor terminal_writestring
output_one-IsOnScreen (write s) {t} h = ends_on_screen _ (terminal_write-EndsOnScreen s t h)
output_one-IsOnScreen (color c) h =
    ends (record { row_bound = h.row_bound; column_bound = h.column_bound })

output-IsOnScreen : (os : List Output) {t : Terminal} → IsOnScreen t → Ends IsOnScreen (output os t)
unfolding output
output-IsOnScreen [] h = ends h
output-IsOnScreen (o ∷ os) h =
    Ends-bind (output_one-IsOnScreen o h) (λ t1 h1. output-IsOnScreen os h1)

-- Printing changes only the terminal.
abbrev pub Printed : Kernel → Kernel → Type 0
Printed k k' = (t : Terminal) × (k' ≡ record k { terminal = t }) × IsOnScreen t

pub print-Printed :
    (k : Kernel) (os : List Output) → IsOnScreen k.terminal → Ends (Printed k) (print os k)
unfolding print
print-Printed k os on = Ends-bind (output-IsOnScreen os on) (λ t h. ends (t, refl, h))

-- Whatever is printed, no cell outside the screen is written; the file system stays.
pub print-SameFiles :
    (os : List Output) {k : Kernel}
    → IsReady k
    → Ends (λ k'. IsReady k' × (k'.fs ≡ k.fs)) (print os k)
unfolding print
print-SameFiles os h = Ends-bind (output-IsOnScreen os h.on_screen) (λ t on. ends (
  record { files = h.files; on_screen = on; input_bound = h.input_bound; editing = h.editing },
  refl,
))

pub print-IsReady : (os : List Output) {k : Kernel} → IsReady k → Ends IsReady (print os k)
print-IsReady os h = Ends-map (print-SameFiles os h) (λ k' p. p.0)

pub with_fs-IsReady : {s : Fs} {k : Kernel} → IsReady k → IsFiles s → IsReady (with_fs s k)
with_fs-IsReady h ok = record {
  files = ok;
  on_screen = h.on_screen;
  input_bound = h.input_bound;
  editing = h.editing;
}

-- The message for a code keeps the files of the call.
pub report-SameFiles :
    (os : List Output) (r : ℤ × Fs) {k : Kernel}
    → IsReady k
    → IsFiles r.1
    → Ends (λ k'. IsReady k' × (k'.fs ≡ r.1)) (report os r k)
report-SameFiles os r h ok =
    Ends-if (is_zero r.0) (ends (with_fs-IsReady h ok, refl))
      (print-SameFiles os (with_fs-IsReady h ok))

pub report-IsReady :
    (os : List Output) (r : ℤ × Fs) {k : Kernel}
    → IsReady k
    → KeepsFiles r
    → Ends IsReady (report os r k)
report-IsReady os r h ok = Ends-map (report-SameFiles os r h ok) (λ k' p. p.0)
