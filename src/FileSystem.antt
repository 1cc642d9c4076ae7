-- ===== src/FileSystem.antt =====
-- The state of the file system, src/kernel/filesystem.h, and the memory pool of filesystem.c.
-- A pointer is an offset into the pool, where `kmalloc` puts every node and every data buffer, and
-- NULL is `none`. Nodes and data buffers are found by their pointer. Nothing is ever freed.
pub mod Alloc
pub mod Lookup
pub mod Tree
pub mod Content
pub mod Paths
pub mod Transfer
pub mod Invariant
pub mod Directory
pub mod Operations
pub mod Tests
use phantom_os.Prelude.{ℕ, Bool, true, false, Option, none, some, ◌==◌, if◌then◌else◌}
use mathlib.Core.Option
use mathlib.Core.List.{[]}
use phantom_os.CString.{Buffer, Text, ℤ, pos, negsuc}

pub data FileType : Type 0 where
  regular : FileType
  directory : FileType

abbrev pub max_filename_length : ℕ
max_filename_length = 64

abbrev pub max_path_length : ℕ
max_path_length = 256

abbrev pub max_files_per_dir : ℕ
max_files_per_dir = 32

abbrev pub max_file_size : ℕ
max_file_size = 4096

abbrev pub max_total_files : ℕ
max_total_files = 128

-- `sizeof(memory_pool)`
abbrev pub pool_size : ℕ
pool_size = 65536

-- `sizeof(fs_node_t)` with 32-bit pointers and `size_t`.
abbrev pub node_size : ℕ
node_size = 224

abbrev pub Ptr : Type 0
Ptr = ℕ

-- `name` is the string in the array of the node; `children` is the array, by its index.
pub record Node : Type 0 where
  pub name : Text
  pub type : FileType
  pub size : ℕ
  pub creation_time : ℕ
  pub modification_time : ℕ
  pub content : Option Ptr
  pub parent : Option Ptr
  pub children : ℕ → Option Ptr
  pub child_count : ℕ
  pub next : Option Ptr

-- `filesystem_t` and the three static variables beside it.
pub record Fs : Type 0 where
  pub memory_offset : ℕ
  pub time_counter : ℕ
  pub node : Ptr → Option Node
  pub block : Ptr → Option Buffer
  pub root : Option Ptr
  pub current_dir : Option Ptr
  pub file_list_head : Option Ptr
  pub total_files : ℕ
  pub current_path : Text

-- The return codes 0, -1 and -2.
abbrev pub success : ℤ
success = pos 0

abbrev pub failure : ℤ
failure = negsuc 0

abbrev pub not_directory : ℤ
not_directory = negsuc 1

-- `p == q` on pointers that may be NULL.
abbrev pub same_ptr : Option Ptr → Option Ptr → Bool
same_ptr none none = true
same_ptr none (some q) = false
same_ptr (some p) none = false
same_ptr (some p) (some q) = p == q

abbrev pub is_directory : FileType → Bool
is_directory regular = false
is_directory directory = true

-- A memory with the cell at `p` changed.
abbrev pub update {ℓ} : {A : Type ℓ} → (ℕ → A) → ℕ → A → ℕ → A
update f p v q = if p == q then v else f q

-- The fields of the node at `p` changed by `f`.
abbrev pub modify : Ptr → (Node → Node) → Fs → Fs
modify p f s = record s { node = update s.node p (Option.map f (s.node p)) }

-- What the loader leaves: a zeroed state.
abbrev pub boot : Fs
boot = record {
  memory_offset = 0;
  time_counter = 0;
  node = λ _. none;
  block = λ _. none;
  root = none;
  current_dir = none;
  file_list_head = none;
  total_files = 0;
  current_path = [];
}
