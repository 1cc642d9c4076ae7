-- ===== src/FileSystem/Transfer.antt =====
-- `fs_copy_file` and `fs_move_file` of src/kernel/filesystem.c.
use phantom_os.Prelude.{zero, suc, Bool, true, false, Option, none, some, ltb, if◌then◌else◌, ◌>>=◌}
use phantom_os.CString.{Text, ℤ, pos, negsuc}
use phantom_os.FileSystem.{regular, is_directory, Ptr, Fs, success, failure}
use phantom_os.FileSystem.Alloc.{create_file}
use phantom_os.FileSystem.Lookup.{resolve_path}
use phantom_os.FileSystem.Tree.{add_child, delete_node}
use phantom_os.FileSystem.Content.{write_file}
use phantom_os.FileSystem.Paths.{get_parent_path, get_filename}

-- `code == 0`
abbrev pub is_zero : ℤ → Bool
is_zero (pos zero) = true
is_zero (pos (suc n)) = false
is_zero (negsuc n) = false

-- `if (src->data && src->size > 0) fs_write_file(dest_file, src->data, src->size);`
unfoldable pub copy_content : Ptr → Ptr → Fs → Option Fs
copy_content src q s = s.node src >>= λ n. elim n.content [
  | none ↦ some s
  | some b ↦
      if ltb 0 n.size
      then (s.block b >>= λ bytes. write_file (some q) bytes n.size s >>= λ r. some r.1)
      else some s
]

-- The new file at `q` gets its content, and is added to the directory at `d` or deleted.
unfoldable pub place_copy : Ptr → Ptr → Ptr → Fs → Option (ℤ × Fs)
place_copy src d q s = do
  s1 ← copy_content src q s
  r ← add_child (some d) (some q) s1
  (if is_zero r.0
      then some (success, r.1)
      else (delete_node (some q) r.1 >>= λ r'. some (failure, r'.1)))

-- `fs_copy_file` behind the checks of the source.
unfoldable pub copy_to : Ptr → Text → Fs → Option (ℤ × Fs)
copy_to src dest_path s = do
  dir_path ← get_parent_path dest_path
  filename ← get_filename dest_path
  dir ← resolve_path s dir_path
  elim dir [
    | none ↦ some (failure, s)
    | some d ↦
        (s.node d >>= λ n.
        if is_directory n.type
        then (let (f, s1) = create_file filename regular s in
            elim f [ none ↦ some (failure, s1) | some q ↦ place_copy src d q s1 ])
        else some (failure, s))
  ]

unfoldable pub copy_file : Text → Text → Fs → Option (ℤ × Fs)
copy_file src_path dest_path s = do
  src ← resolve_path s src_path
  elim src [
    | none ↦ some (failure, s)
    | some p ↦
        (s.node p >>= λ n. if is_directory n.type then some (failure, s) else copy_to p dest_path s)
  ]

-- The code of `fs_delete_node` is ignored.
unfoldable pub move_file : Text → Text → Fs → Option (ℤ × Fs)
move_file src_path dest_path s = do
  r ← copy_file src_path dest_path s
  (if is_zero r.0
      then (resolve_path r.1 src_path >>= λ src. elim src [
        | none ↦ some (failure, r.1)
        | some p ↦ (delete_node (some p) r.1 >>= λ r'. some (success, r'.1))
      ])
      else some (failure, r.1))
