-- ===== src/FileSystem/Tree.antt =====
-- `fs_add_child`, `fs_remove_child`, `fs_delete_node` and `fs_init` of src/kernel/filesystem.c.
-- Each returns its code and the new state, or `none` for a fault.
use phantom_os.Prelude.{
  ℕ, zero, suc, ◌+◌, ◌-◌, ◌%◌, ◌^◌, not, ◌&&◌, Option, none, some, leb, ltb, if◌then◌else◌, ◌>>=◌,
}
use phantom_os.CString.{Text, ℤ, codes}
use phantom_os.FileSystem.{
  directory, is_directory, Ptr, Node, Fs, success, failure, same_ptr, update, modify,
  max_files_per_dir,
}
use phantom_os.FileSystem.Alloc.{get_current_time, create_file}
use phantom_os.FileSystem.Lookup.{find_slot, find_child}

-- `p->modification_time = get_current_time()`
unfoldable pub touch : Ptr → Fs → Fs
touch p s =
    let (t, s') = get_current_time s in modify p (λ n. record n { modification_time = t }) s'

-- The writes of `fs_add_child`, in order.
unfoldable pub attach : Ptr → Ptr → Fs → Fs
attach p c s = touch p (
    modify c (λ m. record m { parent = some p })
      (modify p
        (λ n. record n {
          children = update n.children n.child_count (some c);
          child_count = n.child_count + 1;
        })
        s))

-- The checks of `fs_add_child` behind the NULL tests, on the node `n` at `p`.
unfoldable pub add_checked : Ptr → Node → Ptr → Fs → Option (ℤ × Fs)
add_checked p n c s =
    if not (is_directory n.type)
    then some (failure, s)
    else if leb max_files_per_dir n.child_count
    then some (failure, s)
    else do
      m ← s.node c
      found ← find_child s (some p) m.name
      elim found [ none ↦ some (success, attach p c s) | some _ ↦ some (failure, s) ]

unfoldable pub add_child : Option Ptr → Option Ptr → Fs → Option (ℤ × Fs)
add_child none child s = some (failure, s)
add_child (some p) none s = some (failure, s)
add_child (some p) (some c) s = s.node p >>= λ n. add_checked p n c s

-- `for (j = i; j < i + rounds; j++) children[j] = children[j + 1]`
unfoldable pub shift_left : (rounds j : ℕ) → (ℕ → Option Ptr) → ℕ → Option Ptr
shift_left zero j children = children
shift_left (suc rounds) j children =
    shift_left rounds (suc j) (update children j (children (suc j)))

-- The writes of `fs_remove_child` at the index `i` that it found.
unfoldable pub unlink : Ptr → ℕ → Fs → Fs
unlink p i s = touch p (
    modify p
      (λ n. record n {
        children =
            update (shift_left (n.child_count - 1 - i) i n.children) (n.child_count - 1) none;
        child_count = n.child_count - 1;
      })
      s)

unfoldable pub remove_child : Option Ptr → Text → Fs → Option (ℤ × Fs)
remove_child none name s = some (failure, s)
remove_child (some p) name s = do
  n ← s.node p
  (if is_directory n.type
      then (find_slot s n.children name n.child_count 0 >>= λ found. elim found [
        | none ↦ some (failure, s)
        | some i ↦ some (success, unlink p i s)
      ])
      else some (failure, s))

-- `if (node->parent) fs_remove_child(node->parent, node->name);`, whose code is ignored.
unfoldable pub detach : Option Ptr → Text → Fs → Option Fs
detach none name s = some s
detach (some q) name s = remove_child (some q) name s >>= λ r. some r.1

unfoldable pub delete_node : Option Ptr → Fs → Option (ℤ × Fs)
delete_node none s = some (failure, s)
delete_node (some p) s = if same_ptr (some p) s.root then some (failure, s) else do
  n ← s.node p
  (if is_directory n.type && ltb 0 n.child_count
      then some (failure, s)
      else (detach n.parent n.name s >>= λ s1.
          some (success, record s1 { total_files = (s1.total_files + 2 ^ 32 - 1) % 2 ^ 32 })))

-- `memset(&fs, 0, sizeof(filesystem_t))`: the pool and the clock are other variables.
abbrev pub cleared : Fs → Fs
cleared s = record s {
  root = none;
  current_dir = none;
  file_list_head = none;
  total_files = 0;
  current_path = codes "";
}

-- The result is the message that it writes on the terminal.
unfoldable pub init : Fs → Text × Fs
init s =
    let (root, s1) = create_file (codes "/") directory (cleared s) in
    elim root [
      | none ↦ (codes "Error: Failed to create root directory\n", record s1 { root = none })
      | some r ↦ (
        codes "File system initialized\n",
        modify r (λ n. record n { parent = some r })
            (record s1 { root = some r; current_dir = some r; current_path = codes "/" }),
      )
    ]
