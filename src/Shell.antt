-- ===== src/Shell.antt =====
-- The shell of src/kernel/kernel.c: `parse_command_args`, which cuts a command line into a command
-- and two arguments. The three output arrays have 64 bytes each.
pub mod Bounds
pub mod Words
pub mod Basic
pub mod Listing
pub mod Numbers
pub mod Files
pub mod Commands
mod Tests
use phantom_os.Prelude.{ℕ, suc, ◌<◌, List, [], ◌∷◌, ◌++◌, ◌==◌, ltb, if◌then◌else◌, length, take}
use phantom_os.CString.{Text}

-- The variable `state`, 0 to 4.
pub data Reading : Type 0 where
  reading_cmd : Reading
  before_arg1 : Reading
  reading_arg1 : Reading
  before_arg2 : Reading
  reading_arg2 : Reading

-- The three outputs are the characters put into them so far.
pub record Parse : Type 0 where
  pub state : Reading
  pub cmd : Text
  pub arg1 : Text
  pub arg2 : Text

-- `if (len < 63) out[len++] = c;`
abbrev pub put_char : ℕ → Text → Text
put_char c out = if ltb (length out) 63 then out ++ c ∷ [] else out

abbrev pub parse_start : Parse
parse_start = record { state = reading_cmd; cmd = []; arg1 = []; arg2 = [] }

-- One round of the loop, by the state.
unfoldable pub parse_char : Reading → ℕ → Parse → Parse
parse_char reading_cmd c p =
    if c == b' ' then record p { state = before_arg1 } else record p { cmd = put_char c p.cmd }
parse_char before_arg1 c p =
    if c == b' ' then p else record p { state = reading_arg1; arg1 = p.arg1 ++ c ∷ [] }
parse_char reading_arg1 c p =
    if c == b' ' then record p { state = before_arg2 } else record p { arg1 = put_char c p.arg1 }
parse_char before_arg2 c p =
    if c == b' ' then p else record p { state = reading_arg2; arg2 = p.arg2 ++ c ∷ [] }
parse_char reading_arg2 c p = if c == b' ' then p else record p { arg2 = put_char c p.arg2 }

unfoldable pub parse_loop : Text → Parse → Parse
parse_loop [] p = p
parse_loop (c ∷ t) p = parse_loop t (parse_char p.state c p)

-- `while (command[i] && i < 255)`
unfoldable pub parse_command_args : Text → Parse
parse_command_args command = parse_loop (take 255 command) parse_start
