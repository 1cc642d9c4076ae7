-- ===== src/FileSystem/Tests.antt =====
-- Runs of the file system, on the states after `fs_init` and a call or two.
mod Contents
pub mod Files
use phantom_os.Prelude.{
  false, ℕ, ◌+◌, ◌≤◌, ◌<◌, ◌≡◌, refl, ◌↔◌, ◌⊎◌, Option, none, some, [], ◌∷◌, ◌++◌, length, drop,
  replicate, length-replicate, arith,
}
use phantom_os.CString.{Buffer, codes, ℤ, pos}
use phantom_os.FileSystem.{
  same_ptr, regular, directory, Ptr, Node, Fs, boot, success, update, pool_size,
}
use phantom_os.FileSystem.Alloc.{
  kmalloc, get_current_time, zero_block, no_children, alloc_content, init_node, create_file,
}
use phantom_os.FileSystem.Lookup.{find_slot, find_child, resolve_path}
use phantom_os.FileSystem.Tree.{touch, attach, add_checked, add_child, remove_child}
use phantom_os.FileSystem.Content.{write_file}
use phantom_os.FileSystem.Paths.{get_parent_path, get_filename}
use phantom_os.FileSystem.Invariant.Resolve.{IsValidPtr, resolve_path-IsValidPtr}
use phantom_os.FileSystem.Invariant.Pool.{kmalloc-cases}
use phantom_os.FileSystem.Invariant.Create.{
  IsWellFormed, Created, create_file-Created, create_file-IsWellFormed,
}
use phantom_os.FileSystem.Invariant.Init.{root_node, initial, initial-IsWellFormed}
use phantom_os.FileSystem.Directory.{Entry, find_child-Entry}
use phantom_os.FileSystem.Directory.Add.{Added, add_child-Added}
use phantom_os.FileSystem.Directory.Remove.{Removed, remove_child-Removed}
use phantom_os.FileSystem.Operations.Steps.{
  KeepsWellFormed, add_child-IsWellFormed, remove_child-IsWellFormed,
}
use phantom_os.FileSystem.Operations.Write.{
  IsFile, written, written-IsWellFormed, write_file-take, write_file-eq_zero,
}
use phantom_os.FileSystem.Paths.Split.{split-append, split_name}
use phantom_os.FileSystem.Paths.Components.{components}
use phantom_os.CString.Compare.{text_eq}
use phantom_os.FileSystem.Invariant.{IsTree}
use phantom_os.FileSystem.Paths.{update_current_path}
use phantom_os.FileSystem.Paths.Current.{
  IsPathName, PathTo, at_root, below, update_current_path-PathTo,
}

-- After `fs_create_file("usr", FILE_TYPE_DIRECTORY)`: a node at 224.
abbrev usr_made : Fs
usr_made = (create_file (codes "usr") directory initial).1

abbrev pub usr_node : Option Ptr → Node
usr_node parent = record {
  name = codes "usr";
  type = directory;
  size = 0;
  creation_time = 2;
  modification_time = 2;
  content = none;
  parent = parent;
  children = no_children;
  child_count = 0;
  next = some 0;
}

usr_made-IsWellFormed : IsWellFormed usr_made
usr_made-IsWellFormed =
    create_file-IsWellFormed initial (codes "usr") directory initial-IsWellFormed

usr_at : usr_made.node 224 ≡ some (usr_node none)
unfolding create_file kmalloc init_node get_current_time alloc_content
usr_at = refl

root_at : usr_made.node 0 ≡ some (root_node (some 0))
unfolding create_file kmalloc init_node get_current_time alloc_content
root_at = refl

-- After `fs_add_child` of it to the root.
abbrev usr_linked : Fs
usr_linked = attach 0 224 usr_made

link_usr : add_child (some 0) (some 224) usr_made ≡ some (success, usr_linked)
unfolding add_child add_checked find_child find_slot create_file kmalloc init_node get_current_time
    alloc_content
link_usr = refl

usr_linked-IsWellFormed : IsWellFormed usr_linked
usr_linked-IsWellFormed =
    rw link_usr at (add_child-IsWellFormed usr_made-IsWellFormed root_at refl (λ e. cc) usr_at refl)

abbrev root_linked : Node
root_linked = record (root_node (some 0)) {
  modification_time = 3;
  children = update no_children 0 (some 224);
  child_count = 1;
}

root_linked_at : usr_linked.node 0 ≡ some root_linked
unfolding attach touch create_file kmalloc init_node get_current_time alloc_content
root_linked_at = refl

usr_linked_at : usr_linked.node 224 ≡ some (usr_node (some 0))
unfolding attach touch create_file kmalloc init_node get_current_time alloc_content
usr_linked_at = refl

create_file-Created_example :
    Created initial (codes "usr") directory (create_file (codes "usr") directory initial)
create_file-Created_example =
    create_file-Created initial (codes "usr") directory initial-IsWellFormed

add_child-Added_example :
    Added usr_made 0 224
      (root_node (some 0))
      (usr_node none)
      (add_child (some 0) (some 224) usr_made)
add_child-Added_example =
    add_child-Added usr_made-IsWellFormed.tree root_at refl (λ e. cc) usr_at refl

remove_child-Removed_example :
    Removed usr_linked 0 (codes "usr") (remove_child (some 0) (codes "usr") usr_linked)
remove_child-Removed_example =
    remove_child-Removed (codes "usr") usr_linked-IsWellFormed.tree root_linked_at refl

find_child-Entry_example :
    ((c : Ptr)
      → (find_child usr_linked (some 0) (codes "usr") ≡ some (some c))
        ↔ Entry usr_linked.node 0 (codes "usr") c)
    × ((find_child usr_linked (some 0) (codes "usr") ≡ some none)
        ↔ ((c : Ptr) → ¬ Entry usr_linked.node 0 (codes "usr") c))
find_child-Entry_example =
    find_child-Entry usr_linked (codes "usr") usr_linked-IsWellFormed.tree root_linked_at

resolve_path-IsValidPtr_example :
    (r : Option Ptr) × (resolve_path usr_linked (codes "/usr/..//usr") ≡ some r)
    × IsValidPtr usr_linked r
resolve_path-IsValidPtr_example =
    resolve_path-IsValidPtr (codes "/usr/..//usr") usr_linked-IsWellFormed.tree

-- A slash at the end is ignored, an empty component elsewhere is not.
trailing_slash : components (codes "usr/") ≡ codes "usr" ∷ []
trailing_slash = refl

double_slash : components (codes "usr//") ≡ codes "usr" ∷ [] ∷ []
double_slash = refl

split-append_example :
    (get_parent_path (codes "/usr/lib/f") ≡ some (codes "/usr/lib"))
    × (get_filename (codes "/usr/lib/f") ≡ some (codes "f"))
split-append_example =
    split-append (codes "/usr/lib") (codes "f") (omega arith, tt) (omega arith) (omega arith)

split_name_example :
    (get_parent_path (codes "f") ≡ some (codes "/")) × (get_filename (codes "f") ≡ some (codes "f"))
split_name_example = split_name (codes "f") (omega arith, tt) (omega arith)

-- The directory "usr" as the current one.
abbrev in_usr : Fs
in_usr = record usr_linked { current_dir = some 224 }

in_usr-IsTree : IsTree in_usr
in_usr-IsTree = record {
  nodes = usr_linked-IsWellFormed.tree.nodes;
  root_dir = usr_linked-IsWellFormed.tree.root_dir;
  current = (
    224,
    refl,
    record { target = usr_node (some 0); found = usr_linked_at; is_dir = refl; placed = λ e. cc },
  );
}

in_usr-root : in_usr.root ≡ some 0
unfolding attach touch create_file kmalloc init_node get_current_time alloc_content
in_usr-root = refl

not_root : same_ptr (some 224) in_usr.root ≡ false
unfolding attach touch create_file kmalloc init_node get_current_time alloc_content
not_root = refl

usr-Entry : Entry in_usr.node 0 (codes "usr") 224
usr-Entry = record {
  dir = root_linked;
  dir_at = root_linked_at;
  slot = 0;
  holds = refl;
  target = usr_node (some 0);
  target_at = usr_linked_at;
  named = refl;
}

usr-IsPathName : IsPathName (codes "usr")
unfolding text_eq
usr-IsPathName = record {
  name = (omega arith, (omega arith, (omega arith, tt)));
  not_dot = refl;
  not_dots = refl;
}

usr-PathTo : PathTo in_usr 224 (codes "usr" ∷ [])
usr-PathTo =
    below 0 224 root_linked (usr_node (some 0)) [] (at_root 0 in_usr-root) root_linked_at usr-Entry
      usr_linked_at refl not_root usr-IsPathName

update_current_path-PathTo_example :
    (update_current_path in_usr ≡ some (record in_usr { current_path = codes "/usr" }))
    × (resolve_path in_usr (codes "/usr") ≡ some (some 224))
update_current_path-PathTo_example =
    update_current_path-PathTo in_usr-IsTree refl usr-PathTo (omega arith) (omega arith)
