-- ===== src/FileSystem/Invariant/Init.antt =====
-- `fs_init` of src/kernel/filesystem.c establishes the invariant.
use phantom_os.Prelude.{
  ◌≡◌, refl, ap, sym, ◌∙◌, inl, inr, Option, none, some, arith, ◌==◌, ==_iff, Bool-cases,
}
use phantom_os.CString.{codes}
use phantom_os.FileSystem.{directory, Ptr, Node, Fs, update, node_size, boot}
use phantom_os.FileSystem.Alloc.{
  kmalloc, get_current_time, alloc_content, init_node, create_file, no_children,
}
use phantom_os.FileSystem.Tree.{init}
use phantom_os.FileSystem.Invariant.{IsPlacedDir, IsNode}
use phantom_os.FileSystem.Invariant.Create.{IsWellFormed}

-- The root as `fs_create_file` makes it, and with itself as its parent.
abbrev pub root_node : Option Ptr → Node
root_node parent = record {
  name = codes "/";
  type = directory;
  size = 0;
  creation_time = 1;
  modification_time = 1;
  content = none;
  parent = parent;
  children = no_children;
  child_count = 0;
  next = none;
}

abbrev pub initial : Fs
initial = record {
  memory_offset = node_size;
  time_counter = 1;
  node = update (update (λ _. none) 0 (some (root_node none))) 0 (some (root_node (some 0)));
  block = λ _. none;
  root = some 0;
  current_dir = some 0;
  file_list_head = some 0;
  total_files = 1;
  current_path = codes "/";
}

pub init-initial : init boot ≡ (codes "File system initialized\n", initial)
unfolding init create_file kmalloc init_node get_current_time alloc_content
init-initial = refl

-- The root is the only node.
pub initial-only :
    (p : Ptr) (n : Node) → initial.node p ≡ some n → (p ≡ 0) × (n ≡ root_node (some 0))
initial-only p n e = elim (Bool-cases (0 == p)) [
  | inl is_root ↦ (sym ((==_iff 0 p).0 is_root), ground arith)
  | inr other ↦ absurd (ground arith)
]

root_dir : IsPlacedDir initial.node 0
root_dir = record { target = root_node (some 0); found = refl; is_dir = refl; placed = λ e. cc (e) }

root-IsNode : IsNode initial.node initial.block 0 (root_node (some 0))
root-IsNode = record {
  name_bound = omega arith;
  count_bound = omega arith;
  size_bound = omega arith;
  used = λ i h. absurd (omega arith);
  unused = λ i h. refl;
  child = λ i c e. absurd (cc (e));
  distinct = λ i j c d a b e. absurd (cc (e));
  leaf = λ e. refl;
  above = λ q e. let same : 0 ≡ q = cc (e) in rw (← same) root_dir;
  bytes = λ b e. absurd (cc (e));
}

pub initial-IsWellFormed : IsWellFormed initial
initial-IsWellFormed = record {
  tree = record {
    nodes = λ p n e. let (at, is) = initial-only p n e in rw (at, is) root-IsNode;
    root_dir = (0, refl, root_dir);
    current = (0, refl, root_dir);
  };
  pool = record {
    bound = omega arith;
    node_end = λ p n e. omega (arith, (initial-only p n e).0);
    block_end = λ b x e. absurd (cc (e));
    nodes_apart =
        λ p q n m e f ne. absurd (ne ((initial-only p n e).0 ∙ sym (initial-only q m f).0));
    blocks_apart = λ b d x y e. absurd (cc (e));
    node_block_apart = λ p b n x e f. absurd (cc (f));
  };
}

-- After the loader, `fs_init` reports success and leaves a well-formed file system with the root as
-- its only node, which is its own parent and the current directory.
init-IsWellFormed :
    ((init boot).0 ≡ codes "File system initialized\n")
    × IsWellFormed (init boot).1
    × ((p : Ptr) (n : Node) → (init boot).1.node p ≡ some n → (p ≡ 0) × (n.parent ≡ some 0))
    × ((init boot).1.current_dir ≡ (init boot).1.root)
init-IsWellFormed = rw init-initial (
  refl,
  initial-IsWellFormed,
  λ p n e. let (at, is) = initial-only p n e in (at, ap (λ (x : Node). x.parent) is),
  refl,
)
