-- ===== src/FileSystem/Operations/Steps.antt =====
-- `fs_add_child` and `fs_remove_child` of src/kernel/filesystem.c keep the whole invariant.
use phantom_os.Prelude.{ℕ, ◌≡◌, ◌≢◌, true, Option, none, some}
use phantom_os.CString.{Buffer, Text, ℤ}
use phantom_os.FileSystem.{Ptr, Node, Fs, is_directory}
use phantom_os.FileSystem.Alloc.{get_current_time}
use phantom_os.FileSystem.Tree.{touch, attach, unlink, add_child, remove_child}
use phantom_os.FileSystem.Invariant.{Nodes}
use phantom_os.FileSystem.Invariant.Update.{modified, modified_inv}
use phantom_os.FileSystem.Invariant.Pool.{IsPool, HasPool, IsPool-nodes}
use phantom_os.FileSystem.Invariant.Create.{IsWellFormed}
use phantom_os.FileSystem.Directory.Add.{Added, added, full, taken, add_child-Added}
use phantom_os.FileSystem.Directory.Remove.{Removed, removed, missing, remove_child-Removed}

-- A change of one node allocates nothing.
pub modified-IsPool :
    {offset : ℕ} {g : Nodes} {blocks : Ptr → Option Buffer} (p : Ptr) (f : Node → Node)
    → IsPool offset g blocks
    → IsPool offset (modified p f g) blocks
modified-IsPool {g} p f = IsPool-nodes (λ q n' e. let (n, e0, c) = modified_inv p f g e in (n, e0))

pub attach-HasPool : (p c : Ptr) (s : Fs) → HasPool s → HasPool (attach p c s)
unfolding attach touch get_current_time
attach-HasPool p c s ok = modified-IsPool p _ (modified-IsPool c _ (modified-IsPool p _ ok))

pub unlink-HasPool : (p : Ptr) (i : ℕ) (s : Fs) → HasPool s → HasPool (unlink p i s)
unfolding unlink touch get_current_time
unlink-HasPool p i s ok = modified-IsPool p _ (modified-IsPool p _ ok)

-- What a call with a code and a state returns keeps the invariant.
abbrev pub KeepsWellFormed : Option (ℤ × Fs) → Type 0
KeepsWellFormed none = ⊥
KeepsWellFormed (some (code, s)) = IsWellFormed s

Added-IsWellFormed :
    {s : Fs} {p c : Ptr} {n m : Node} {r : Option (ℤ × Fs)}
    → IsWellFormed s
    → Added s p c n m r
    → KeepsWellFormed r
Added-IsWellFormed {p} {c} ok (added l tree map other) = record {
  tree = tree;
  pool = attach-HasPool p c _ ok.pool;
}
Added-IsWellFormed ok (full h) = ok
Added-IsWellFormed ok (taken d e) = ok

Removed-IsWellFormed :
    {s : Fs} {p : Ptr} {name : Text} {r : Option (ℤ × Fs)}
    → IsWellFormed s
    → Removed s p name r
    → KeepsWellFormed r
Removed-IsWellFormed {p} ok (removed i c e tree map other) = record {
  tree = tree;
  pool = unlink-HasPool p i _ ok.pool;
}
Removed-IsWellFormed ok (missing none_there) = ok

-- In a well-formed file system `fs_add_child` of a node without a parent to a directory ends without
-- a fault, and the nodes and the memory pool stay well-formed.
pub add_child-IsWellFormed :
    {s : Fs} {p c : Ptr} {n m : Node}
    → IsWellFormed s
    → s.node p ≡ some n
    → is_directory n.type ≡ true
    → n.parent ≢ none
    → s.node c ≡ some m
    → m.parent ≡ none
    → KeepsWellFormed (add_child (some p) (some c) s)
add_child-IsWellFormed ok cell dir placed child_cell orphan =
    Added-IsWellFormed ok (add_child-Added ok.tree cell dir placed child_cell orphan)

-- In a well-formed file system `fs_remove_child` of any name from a directory ends without a fault,
-- and the nodes and the memory pool stay well-formed.
pub remove_child-IsWellFormed :
    {s : Fs} {p : Ptr} {n : Node} (name : Text)
    → IsWellFormed s
    → s.node p ≡ some n
    → is_directory n.type ≡ true
    → KeepsWellFormed (remove_child (some p) name s)
remove_child-IsWellFormed name ok cell dir =
    Removed-IsWellFormed ok (remove_child-Removed name ok.tree cell dir)
