-- ===== src/FileSystem/Operations/Initial.antt =====
-- The state after `fs_init` of src/kernel/filesystem.c.
use phantom_os.Prelude.{arith}
use phantom_os.FileSystem.Invariant.Init.{initial, initial-only, initial-IsWellFormed}
use phantom_os.FileSystem.Operations.Files.{IsFiles}

-- The root alone is tidy.
pub initial-IsFiles : IsFiles initial
initial-IsFiles = record {
  well = initial-IsWellFormed;
  tidy = record {
    nodes = λ p n e.
        let (at, is) = initial-only p n e in
        rw is (record { order = λ i c slot. absurd (cc (slot)); text = omega arith });
    tails = λ b bytes e. absurd (cc (e));
  };
}
