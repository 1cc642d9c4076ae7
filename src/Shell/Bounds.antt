-- ===== src/Shell/Bounds.antt =====
-- `parse_command_args` of src/kernel/kernel.c: its outputs stay within their arrays.

use phantom_os.Prelude.{
  ℕ, ◌<◌, ◌≡◌, refl, arith, Bool, true, false, ◌==◌, if◌then◌else◌, [], ◌∷◌, length, take,
  length-append,
}
use phantom_os.CString.{Text}
use phantom_os.Shell.{
  Reading, reading_cmd, before_arg1, reading_arg1, before_arg2, reading_arg2, Parse, put_char,
  parse_start, parse_char, parse_loop, parse_command_args,
}

-- The outputs fit in arrays of 64 bytes with their NUL.
pub record FitsParse (p : Parse) : Type 0 where
  pub cmd_bound : length p.cmd < 64
  pub arg1_bound : length p.arg1 < 64
  pub arg2_bound : length p.arg2 < 64

-- The states in which an argument has no character yet.
abbrev Untouched : Reading → Parse → Type 0
Untouched reading_cmd p = (p.arg1 ≡ []) × (p.arg2 ≡ [])
Untouched before_arg1 p = (p.arg1 ≡ []) × (p.arg2 ≡ [])
Untouched reading_arg1 p = p.arg2 ≡ []
Untouched before_arg2 p = p.arg2 ≡ []
Untouched reading_arg2 p = Unit {0}

put_char-bound : (c : ℕ) (out : Text) → length out < 64 → length (put_char c out) < 64
put_char-bound c out h = ground (arith, length-append out (c ∷ []))

-- The bounds, with what the state says of the arguments.
abbrev Bounded : Parse → Type 0
Bounded p = FitsParse p × Untouched p.state p

Bounded-if : (b : Bool) {p q : Parse} → Bounded p → Bounded q → Bounded (if b then p else q)
Bounded-if true h k = h
Bounded-if false h k = k

parse_char-Bounded :
    (st : Reading) (c : ℕ) (p : Parse)
    → p.state ≡ st
    → FitsParse p
    → Untouched st p
    → Bounded (parse_char st c p)
unfolding parse_char
parse_char-Bounded reading_cmd c p e ok u =
    Bounded-if (c == b' ')
      (
        record { cmd_bound = ok.cmd_bound; arg1_bound = ok.arg1_bound; arg2_bound = ok.arg2_bound },
        u,
      )
      (
        record {
          cmd_bound = put_char-bound c p.cmd ok.cmd_bound;
          arg1_bound = ok.arg1_bound;
          arg2_bound = ok.arg2_bound;
        },
        rw e u,
      )
parse_char-Bounded before_arg1 c p e ok u =
    Bounded-if (c == b' ') (ok, rw e u)
      (
        record {
          cmd_bound = ok.cmd_bound;
          arg1_bound = rw u.0 (omega arith);
          arg2_bound = ok.arg2_bound;
        },
        u.1,
      )
parse_char-Bounded reading_arg1 c p e ok u =
    Bounded-if (c == b' ')
      (
        record { cmd_bound = ok.cmd_bound; arg1_bound = ok.arg1_bound; arg2_bound = ok.arg2_bound },
        u,
      )
      (
        record {
          cmd_bound = ok.cmd_bound;
          arg1_bound = put_char-bound c p.arg1 ok.arg1_bound;
          arg2_bound = ok.arg2_bound;
        },
        rw e u,
      )
parse_char-Bounded before_arg2 c p e ok u =
    Bounded-if (c == b' ') (ok, rw e u)
      (
        record {
          cmd_bound = ok.cmd_bound;
          arg1_bound = ok.arg1_bound;
          arg2_bound = rw u (omega arith);
        },
        tt,
      )
parse_char-Bounded reading_arg2 c p e ok u =
    Bounded-if (c == b' ') (ok, rw e tt)
      (
        record {
          cmd_bound = ok.cmd_bound;
          arg1_bound = ok.arg1_bound;
          arg2_bound = put_char-bound c p.arg2 ok.arg2_bound;
        },
        rw e tt,
      )

parse_loop-FitsParse : (t : Text) (p : Parse) → Bounded p → FitsParse (parse_loop t p)
unfolding parse_loop
parse_loop-FitsParse [] p ok = ok.0
parse_loop-FitsParse (c ∷ t) p ok =
    parse_loop-FitsParse t (parse_char p.state c p) (parse_char-Bounded p.state c p refl ok.0 ok.1)

-- For every command line the command and both arguments fit in their arrays of 64 bytes, although
-- the first character of an argument is stored without a test.
pub parse_command_args-FitsParse : (command : Text) → FitsParse (parse_command_args command)
unfolding parse_command_args
parse_command_args-FitsParse command = parse_loop-FitsParse (take 255 command) parse_start (
  record { cmd_bound = omega arith; arg1_bound = omega arith; arg2_bound = omega arith },
  (refl, refl),
)
