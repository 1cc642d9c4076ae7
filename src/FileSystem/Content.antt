-- ===== src/FileSystem/Content.antt =====
-- `fs_write_file` and `fs_read_file` of src/kernel/filesystem.c.
use phantom_os.Prelude.{ℕ, Option, none, some, ltb, if◌then◌else◌, ◌>>=◌}
use phantom_os.CString.{Buffer, ℤ, pos, memcpy}
use phantom_os.FileSystem.{is_directory, Ptr, Fs, failure, update, modify, max_file_size}
use phantom_os.FileSystem.Alloc.{get_current_time}

-- The size that is written.
abbrev pub clamp_size : ℕ → ℕ
clamp_size size = if ltb max_file_size size then max_file_size else size

-- The copy into the data buffer `b` of the file at `p`, and the update of its node.
unfoldable pub write_content : Ptr → Ptr → Buffer → ℕ → Fs → Option (ℤ × Fs)
write_content p b bytes size s = do
  old ← s.block b
  new ← memcpy old bytes size
  (let (t, s1) = get_current_time (record s { block = update s.block b (some new) }) in
      some (pos size, modify p (λ n. record n { size = size; modification_time = t }) s1))

unfoldable pub write_file : Option Ptr → Buffer → ℕ → Fs → Option (ℤ × Fs)
write_file none bytes size s = some (failure, s)
write_file (some p) bytes size s = do
  n ← s.node p
  (if is_directory n.type then some (failure, s) else elim n.content [
    | none ↦ some (failure, s)
    | some b ↦ write_content p b bytes (clamp_size size) s
  ])

-- The result is the pointer to the data, or NULL.
unfoldable pub read_file : Fs → Option Ptr → Option (Option Ptr)
read_file s none = some none
read_file s (some p) = s.node p >>= λ n. if is_directory n.type then some none else some n.content
