-- ===== src/FileSystem/Invariant.antt =====
-- The well-formedness of the node graph, and how it moves along a change of one node.
pub mod Find
pub mod Resolve
pub mod Update
pub mod Pool
pub mod Create
pub mod Init
pub mod Attach
pub mod Unlink
pub mod Tidy
use phantom_os.Prelude.{ℕ, ◌≤◌, ◌<◌, ◌≡◌, ◌≢◌, Option, none, some, length, Bool, true, false}
use phantom_os.CString.{Buffer}
use phantom_os.FileSystem.{
  Ptr, Node, Fs, is_directory, max_filename_length, max_files_per_dir, max_file_size,
}

-- The nodes of a state, by their pointer.
abbrev pub Nodes : Type 0
Nodes = Ptr → Option Node

-- `p` points to a node that has a parent: the root, a node in the tree, or one that was removed.
pub record IsPlaced (g : Nodes) (p : Ptr) : Type 0 where
  pub target : Node
  pub found : g p ≡ some target
  pub placed : target.parent ≢ none

-- The node in the slot of a directory at `p`.
pub record IsChild (g : Nodes) (p c : Ptr) : Type 0 where
  pub target : Node
  pub found : g c ≡ some target
  pub back : target.parent ≡ some p

-- A directory that has a parent.
pub record IsPlacedDir (g : Nodes) (p : Ptr) : Type 0 where
  pub target : Node
  pub found : g p ≡ some target
  pub is_dir : is_directory target.type ≡ true
  pub placed : target.parent ≢ none

-- A data buffer of `MAX_FILE_SIZE` bytes.
abbrev pub IsBlock : (Ptr → Option Buffer) → Ptr → Type 0
IsBlock blocks b = (bytes : Buffer) × (blocks b ≡ some bytes) × (length bytes ≡ max_file_size)

-- Two slots of a directory that hold nodes of one name are one slot.
abbrev pub DistinctNames : Nodes → Node → Type 0
DistinctNames g n =
    (i j : ℕ) (c d : Ptr) (k l : Node)
    → n.children i ≡ some c
    → n.children j ≡ some d
    → g c ≡ some k
    → g d ≡ some l
    → k.name ≡ l.name
    → i ≡ j

-- One node of a well-formed file system.
pub record IsNode (g : Nodes) (blocks : Ptr → Option Buffer) (p : Ptr) (n : Node) : Type 0 where
  pub name_bound : length n.name < max_filename_length
  pub count_bound : n.child_count ≤ max_files_per_dir
  pub size_bound : n.size ≤ max_file_size
  pub used : (i : ℕ) → i < n.child_count → n.children i ≢ none
  pub unused : (i : ℕ) → n.child_count ≤ i → n.children i ≡ none
  pub child : (i : ℕ) (c : Ptr) → n.children i ≡ some c → IsChild g p c
  pub distinct : DistinctNames g n
  pub leaf : is_directory n.type ≡ false → n.child_count ≡ 0
  pub above : (q : Ptr) → n.parent ≡ some q → IsPlacedDir g q
  pub bytes : (b : Ptr) → n.content ≡ some b → IsBlock blocks b

-- Every node is well-formed; the root and the current directory are directories with a parent.
pub record IsTree (s : Fs) : Type 0 where
  pub nodes : (p : Ptr) (n : Node) → s.node p ≡ some n → IsNode s.node s.block p n
  pub root_dir : (r : Ptr) × (s.root ≡ some r) × IsPlacedDir s.node r
  pub current : (d : Ptr) × (s.current_dir ≡ some d) × IsPlacedDir s.node d
