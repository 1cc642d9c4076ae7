-- ===== src/Shell/Files.antt =====
-- The commands of the shell, src/kernel/kernel.c, that change the file system.
use phantom_os.Prelude.{
  ◌||◌, not, Option, none, some, List, [], ◌∷◌, ◌++◌, ltb, if◌then◌else◌, ◌>>=◌, length,
}
use phantom_os.CString.{Text, codes, ℤ}
use phantom_os.CString.Compare.{text_eq}
use phantom_os.FileSystem.{FileType, regular, directory, Ptr, Fs, is_directory}
use phantom_os.FileSystem.Alloc.{create_file}
use phantom_os.FileSystem.Lookup.{find_child, resolve_path}
use phantom_os.FileSystem.Tree.{add_child, remove_child, delete_node}
use phantom_os.FileSystem.Content.{write_file}
use phantom_os.FileSystem.Paths.{change_directory, fit}
use phantom_os.FileSystem.Transfer.{is_zero, copy_file, move_file}
use phantom_os.Editor.{editor_init, Editor}
use phantom_os.Editor.Files.{editor_open}
use phantom_os.Editor.Draw.{editor_draw}
use phantom_os.Kernel.{Kernel, Output, write, say, print}
use phantom_os.Shell.Basic.{is_empty}

abbrev pub with_fs : Fs → Kernel → Kernel
with_fs s k = record k { fs = s }

-- A call with a code: the messages for a code other than 0.
abbrev pub report : List Output → ℤ × Fs → Kernel → Option Kernel
report os r k = if is_zero r.0 then some (with_fs r.1 k) else print os (with_fs r.1 k)

-- `cd ..`, whose code is ignored.
unfoldable pub cd_parent : Kernel → Option Kernel
cd_parent k = k.fs.current_dir >>= λ d. k.fs.node d >>= λ n. elim n.parent [
  | none ↦ some k
  | some q ↦ (change_directory (codes "..") k.fs >>= λ r. some (with_fs r.1 k))
]

unfoldable pub cmd_cd : Text → Kernel → Option Kernel
cmd_cd arg1 k =
    if is_empty arg1
    then print (say "cd: missing operand\n" ∷ []) k
    else if text_eq arg1 (codes "/")
    then (change_directory (codes "/") k.fs >>= λ r. some (with_fs r.1 k))
    else if text_eq arg1 (codes "..")
    then cd_parent k
    else if text_eq arg1 (codes ".")
    then some k
    else (change_directory arg1 k.fs >>= λ r.
        report (say "cd: " ∷ write arg1 ∷ say ": No such directory\n" ∷ []) r k)

-- The new node and its place in the directory at `parent`; a node that finds no place stays.
unfoldable pub make_node : FileType → Text → List Output → Kernel → Option Kernel
make_node type name os k =
    let (f, s1) = create_file name type k.fs in
    elim f [
      | none ↦ print os (with_fs s1 k)
      | some q ↦ (add_child k.fs.current_dir (some q) s1 >>= λ r. report os r k)
    ]

unfoldable pub cmd_mkdir : Text → Kernel → Option Kernel
cmd_mkdir arg1 k =
    if is_empty arg1
    then print (say "mkdir: missing operand\n" ∷ []) k
    else (find_child k.fs k.fs.current_dir arg1 >>= λ found. elim found [
      | some c ↦
          print (say "mkdir: cannot create directory '" ∷ write arg1 ∷ say "': File exists\n" ∷ [])
            k
      | none ↦ make_node directory arg1 (say "mkdir: cannot create directory\n" ∷ []) k
    ])

unfoldable pub cmd_touch : Text → Kernel → Option Kernel
cmd_touch arg1 k =
    if is_empty arg1
    then print (say "touch: missing file operand\n" ∷ []) k
    else (find_child k.fs k.fs.current_dir arg1 >>= λ found. elim found [
      | some c ↦ some k
      | none ↦ make_node regular arg1 (say "touch: cannot create file\n" ∷ []) k
    ])

-- `fs_remove_child(node->parent, node->name); fs_delete_node(node);`, whose codes are ignored.
unfoldable pub remove_node : Ptr → Fs → Option Fs
remove_node p s = s.node p >>= λ n.
    remove_child n.parent n.name s >>= λ r. delete_node (some p) r.1 >>= λ r'. some r'.1

abbrev rmdir_refusal : Text → Text → List Output
rmdir_refusal arg1 why = say "rmdir: failed to remove '" ∷ write arg1 ∷ write why ∷ []

unfoldable pub cmd_rmdir : Text → Kernel → Option Kernel
cmd_rmdir arg1 k =
    if is_empty arg1
    then print (say "rmdir: missing operand\n" ∷ []) k
    else (resolve_path k.fs arg1 >>= λ found. elim found [
      | none ↦ print (rmdir_refusal arg1 (codes "': No such file or directory\n")) k
      | some p ↦
          (k.fs.node p >>= λ n.
          if not (is_directory n.type)
          then print (rmdir_refusal arg1 (codes "': Not a directory\n")) k
          else if ltb 0 n.child_count
          then print (rmdir_refusal arg1 (codes "': Directory not empty\n")) k
          else (remove_node p k.fs >>= λ s. some (with_fs s k)))
    ])

abbrev rm_refusal : Text → Text → List Output
rm_refusal arg1 why = say "rm: cannot remove '" ∷ write arg1 ∷ write why ∷ []

unfoldable pub cmd_rm : Text → Kernel → Option Kernel
cmd_rm arg1 k =
    if is_empty arg1
    then print (say "rm: missing operand\n" ∷ []) k
    else (resolve_path k.fs arg1 >>= λ found. elim found [
      | none ↦ print (rm_refusal arg1 (codes "': No such file or directory\n")) k
      | some p ↦
          (k.fs.node p >>= λ n.
          if is_directory n.type
          then print (rm_refusal arg1 (codes "': Is a directory\n")) k
          else (remove_node p k.fs >>= λ s. some (with_fs s k)))
    ])

unfoldable pub cmd_cp : Text → Text → Kernel → Option Kernel
cmd_cp arg1 arg2 k =
    if is_empty arg1 || is_empty arg2
    then print (say "cp: missing file operand\n" ∷ []) k
    else (copy_file arg1 arg2 k.fs >>= λ r. report (say "cp: cannot copy file\n" ∷ []) r k)

unfoldable pub cmd_mv : Text → Text → Kernel → Option Kernel
cmd_mv arg1 arg2 k =
    if is_empty arg1 || is_empty arg2
    then print (say "mv: missing file operand\n" ∷ []) k
    else (move_file arg1 arg2 k.fs >>= λ r. report (say "mv: cannot move file\n" ∷ []) r k)

-- The code of `fs_write_file` is compared with 0.
unfoldable pub write_text : Text → Text → Ptr → Kernel → Option Kernel
write_text arg1 arg2 p k = k.fs.node p >>= λ n.
    if is_directory n.type
    then print (say "write: " ∷ write arg1 ∷ say ": Is a directory\n" ∷ []) k
    else (write_file (some p) (arg2 ++ 0 ∷ []) (length arg2) k.fs >>= λ r.
        report (say "write: cannot write to file\n" ∷ []) r k)

-- The file is created; where it finds no place it is deleted again.
unfoldable pub write_new : Text → Text → Kernel → Option Kernel
write_new arg1 arg2 k =
    let (f, s1) = create_file arg1 regular k.fs in
    elim f [
      | none ↦ some (with_fs s1 k)
      | some q ↦
          (add_child k.fs.current_dir (some q) s1 >>= λ r.
          if is_zero r.0
          then write_text arg1 arg2 q (with_fs r.1 k)
          else (print (say "write: cannot create file\n" ∷ []) (with_fs r.1 k) >>= λ k1.
              delete_node (some q) k1.fs >>= λ r'. some (with_fs r'.1 k1)))
    ]

unfoldable pub cmd_write : Text → Text → Kernel → Option Kernel
cmd_write arg1 arg2 k =
    if is_empty arg1
    then print (say "write: missing file operand\n" ∷ []) k
    else if is_empty arg2
    then print (say "write: missing text operand\n" ∷ []) k
    else (resolve_path k.fs arg1 >>= λ found. elim found [
      | none ↦ write_new arg1 arg2 k
      | some p ↦ write_text arg1 arg2 p k
    ])

-- The editor with its file; `filename` has 64 bytes.
unfoldable pub opened : Text → Fs → Option Editor
opened filename s =
    if is_empty filename
    then some (record editor_init { filename = codes "untitled.txt" })
    else (fit 64 filename >>= λ name. editor_open name s (record editor_init { filename = name }))

unfoldable pub run_editor : Text → Kernel → Option Kernel
run_editor filename k = opened filename k.fs >>= λ e.
    editor_draw e k.terminal >>= λ t. some (record k { current_editor = some e; terminal = t })
