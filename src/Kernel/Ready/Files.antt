-- ===== src/Kernel/Ready/Files.antt =====
-- The commands cd, mkdir and touch of the shell, src/kernel/kernel.c, keep the invariant.
use phantom_os.Prelude.{◌≡◌, ◌≢◌, Option, none, some, List, Ends, ends, Ends-bind, Ends-if, ◌>>=◌}
use phantom_os.CString.{Text, codes, ℤ}
use phantom_os.CString.Compare.{text_eq}
use phantom_os.FileSystem.{FileType, regular, directory, Ptr, Node, Fs}
use phantom_os.FileSystem.Lookup.{find_child, resolve_path}
use phantom_os.FileSystem.Tree.{add_child}
use phantom_os.FileSystem.Paths.{change_directory}
use phantom_os.FileSystem.Invariant.Find.{find_child-Lookup}
use phantom_os.FileSystem.Invariant.Resolve.{IsValidPtr, resolve_path-IsValidPtr}
use phantom_os.FileSystem.Operations.Files.{
  CreatedFiles, no_node, new_node, create_file-CreatedFiles,
}
use phantom_os.FileSystem.Operations.Adding.{IsAdding, added, add_new-IsAdding}
use phantom_os.FileSystem.Operations.Copy.{found_node}
use phantom_os.FileSystem.Operations.Change.{PathsFit, change_directory-KeepsFiles}
use phantom_os.Kernel.{Kernel, Output, print}
use phantom_os.Kernel.Ready.{IsReady, print-IsReady, with_fs-IsReady, report-IsReady}
use phantom_os.Shell.Basic.{is_empty}
use phantom_os.Shell.Files.{with_fs, report, cd_parent, cmd_cd, make_node, cmd_mkdir, cmd_touch}

-- `fs_change_directory`, whose code is ignored.
changed-IsReady :
    {k : Kernel} (path : Text)
    → IsReady k
    → PathsFit k.fs
    → Ends IsReady (change_directory path k.fs >>= λ r. some (with_fs r.1 k))
changed-IsReady path h fit =
    Ends-bind (change_directory-KeepsFiles path h.files fit) (λ r ok. ends (with_fs-IsReady h ok))

cd_parent-IsReady : {k : Kernel} → IsReady k → PathsFit k.fs → Ends IsReady (cd_parent k)
unfolding cd_parent
cd_parent-IsReady {k} h fit =
    let (d, at, dir) = h.files.well.tree.current in
    rw (at, ◌>>=◌) (rw (dir.found, ◌>>=◌) (up dir.target.parent))
  where
    up :
        (parent : Option Ptr)
        → Ends IsReady (elim parent [
          | none ↦ some k
          | some q ↦ (change_directory (codes "..") k.fs >>= λ r. some (with_fs r.1 k))
        ])
    up none = ends h
    up (some q) = changed-IsReady (codes "..") h fit

pub cmd_cd-IsReady :
    (arg1 : Text) {k : Kernel} → IsReady k → PathsFit k.fs → Ends IsReady (cmd_cd arg1 k)
unfolding cmd_cd
cmd_cd-IsReady arg1 h fit = Ends-if (is_empty arg1) (print-IsReady _ h) (
    Ends-if (text_eq arg1 (codes "/")) (changed-IsReady (codes "/") h fit) (
      Ends-if (text_eq arg1 (codes "..")) (cd_parent-IsReady h fit) (
        Ends-if (text_eq arg1 (codes ".")) (ends h) (
          Ends-bind (change_directory-KeepsFiles arg1 h.files fit)
            (λ r ok. report-IsReady _ r h ok)))))

make_node-IsReady :
    (type : FileType) (name : Text) (os : List Output) {k : Kernel}
    → IsReady k
    → Ends IsReady (make_node type name os k)
unfolding make_node
make_node-IsReady type name os {k} h = from (create_file-CreatedFiles name type h.files)
  where
    placed :
        {q : Ptr} {r : Option (ℤ × Fs)}
        → IsAdding k.fs q r
        → Ends IsReady (r >>= λ r. report os r k)
    placed (added r n ok at) = report-IsReady os r h ok

    from :
        {r : Option Ptr × Fs}
        → CreatedFiles k.fs name type r
        → Ends IsReady (elim r.0 [
          | none ↦ print os (with_fs r.1 k)
          | some q ↦ (add_child k.fs.current_dir (some q) r.1 >>= λ r. report os r k)
        ])
    from no_node = print-IsReady os (with_fs-IsReady h h.files)
    from (new_node q s' new) = placed (add_new-IsAdding h.files new)

-- The name is free or taken; the call for a free one decides the rest.
find_child-IsReady :
    {k : Kernel} (name : Text) {there : Ptr → Option Kernel} {free : Option Kernel}
    → IsReady k
    → ((c : Ptr) → Ends IsReady (there c))
    → Ends IsReady free
    → Ends IsReady (
        find_child k.fs k.fs.current_dir name >>= λ found. elim found [
          | some c ↦ there c
          | none ↦ free
        ])
find_child-IsReady {k} name {there} {free} h taken unused =
    let (d, at, dir) = h.files.well.tree.current in
    let (r, run, look) =
      find_child-Lookup k.fs name (h.files.well.tree.nodes d dir.target dir.found) dir.found in
    from k.fs.current_dir at r run
  where
    both : (found : Option Ptr) → Ends IsReady (elim found [ some c ↦ there c | none ↦ free ])
    both none = unused
    both (some c) = taken c

    from :
        {d : Ptr} (dir : Option Ptr)
        → dir ≡ some d
        → (r : Option Ptr) → find_child k.fs (some d) name ≡ some r
        → Ends IsReady
            (find_child k.fs dir name >>= λ found. elim found [ some c ↦ there c | none ↦ free ])
    from dir at r run = rw at (rw (run, ◌>>=◌) (both r))

pub cmd_mkdir-IsReady : (arg1 : Text) {k : Kernel} → IsReady k → Ends IsReady (cmd_mkdir arg1 k)
unfolding cmd_mkdir
cmd_mkdir-IsReady arg1 h =
    Ends-if (is_empty arg1) (print-IsReady _ h)
      (find_child-IsReady arg1 h (λ c. print-IsReady _ h) (make_node-IsReady directory arg1 _ h))

pub cmd_touch-IsReady : (arg1 : Text) {k : Kernel} → IsReady k → Ends IsReady (cmd_touch arg1 k)
unfolding cmd_touch
cmd_touch-IsReady arg1 h =
    Ends-if (is_empty arg1) (print-IsReady _ h)
      (find_child-IsReady arg1 h (λ c. ends h) (make_node-IsReady regular arg1 _ h))

-- A call on the node that a path leads to.
pub resolved-IsReady :
    {k : Kernel} (path : Text) {body : Ptr → Option Kernel} {other : Option Kernel}
    → IsReady k
    → Ends IsReady other
    → ((p : Ptr) (n : Node) → k.fs.node p ≡ some n → n.parent ≢ none → Ends IsReady (body p))
    → Ends IsReady
        (resolve_path k.fs path >>= λ found. elim found [ none ↦ other | some p ↦ body p ])
resolved-IsReady {k} path {body} {other} h missing there =
    let (found, e, valid) = resolve_path-IsValidPtr path h.files.well.tree in
    rw (e, ◌>>=◌) (from found valid)
  where
    from :
        (found : Option Ptr)
        → IsValidPtr k.fs found
        → Ends IsReady (elim found [ none ↦ other | some p ↦ body p ])
    from none valid = missing
    from (some p) valid = let (n, at, placed) = found_node k.fs valid in there p n at placed
