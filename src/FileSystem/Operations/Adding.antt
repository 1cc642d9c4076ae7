-- ===== src/FileSystem/Operations/Adding.antt =====
-- `fs_create_file` followed by `fs_add_child` to the current directory, as the shell and the editor
-- of src/kernel call them.
use phantom_os.Prelude.{◌≡◌, Option, some}
use phantom_os.CString.{Text, ℤ}
use phantom_os.FileSystem.{FileType, Ptr, Node, Fs}
use phantom_os.FileSystem.Tree.{add_child}
use phantom_os.FileSystem.Operations.Files.{
  IsFiles, NewNode, AddedFiles, placed_child, no_place, add_child-AddedFiles,
}

-- A new node, and its place in the current directory.
pub data IsAdding (s : Fs) (q : Ptr) : Option (ℤ × Fs) → Type 0 where
  added : (r : ℤ × Fs) (n : Node) → IsFiles r.1 → r.1.node q ≡ some n → IsAdding s q (some r)

added-IsAdding :
    {s s' : Fs} {q : Ptr} {m : Node} {r : Option (ℤ × Fs)}
    → s'.node q ≡ some m
    → IsFiles s'
    → AddedFiles s' q m r
    → IsAdding s q r
added-IsAdding at ok (placed_child s' files h same) = added _ h.node files h.at
added-IsAdding at ok no_place = added _ _ ok at

-- `fs_create_file` and then `fs_add_child` to the current directory.
pub add_new-IsAdding :
    {s s' : Fs} {q : Ptr} {name : Text} {type : FileType}
    → IsFiles s
    → NewNode s name type q s'
    → IsAdding s q (add_child s.current_dir (some q) s')
add_new-IsAdding {s} {s'} {q} ok new =
    let (d, at, dir) = ok.well.tree.current in
    let here = new.kept d dir.target dir.found in
    in_dir s.current_dir at (
      added-IsAdding new.at new.files (
        add_child-AddedFiles new.files here.1 dir.is_dir dir.placed new.at new.fresh.orphan here.0))
  where
    in_dir :
        {d : Ptr} (parent : Option Ptr)
        → parent ≡ some d
        → IsAdding s q (add_child (some d) (some q) s')
        → IsAdding s q (add_child parent (some q) s')
    in_dir parent e h = rw e h
