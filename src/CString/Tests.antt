-- ===== src/CString/Tests.antt =====
-- Runs of the string and memory functions.
use phantom_os.Prelude.{arith}
use phantom_os.CString.{codes}
use phantom_os.CString.Compare.{IsText}

ab-IsText : IsText (codes "ab")
ab-IsText = (omega arith, (omega arith, tt))

ac-IsText : IsText (codes "ac")
ac-IsText = (omega arith, (omega arith, tt))
