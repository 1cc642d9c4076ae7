-- ===== src/Shell/Tests.antt =====
-- Runs of the parser of command lines.
use phantom_os.Prelude.{arith, Ends, ◌≡◌}
use phantom_os.CString.{codes}
use phantom_os.Shell.Listing.{decimal}
use phantom_os.Shell.Numbers.{value_after, decimal-value_after}
use phantom_os.Shell.{parse_command_args}
use phantom_os.Shell.Words.{Holds, parse_command_args-words}

parse_command_args-words_example :
    Holds
      (codes "cp")
      (codes "ab")
      (codes "helloworld")
      (parse_command_args (codes "cp ab hello world"))
parse_command_args-words_example =
    parse_command_args-words (codes "cp") (codes "b") (codes "hello world") b'a'
      (omega arith, (omega arith, tt)) (omega arith, (omega arith, tt)) (omega arith) (omega arith)
      (omega arith)

decimal-value_after_example : Ends (λ t. value_after 0 t ≡ 4096) (decimal 4096)
decimal-value_after_example = decimal-value_after 4096 (omega arith)
