-- ===== src/FileSystem/Alloc.antt =====
-- `kmalloc`, `get_current_time` and `fs_create_file` of src/kernel/filesystem.c.
use phantom_os.Prelude.{
  ℕ, ◌+◌, ◌-◌, ◌%◌, ◌^◌, Option, none, some, leb, if◌then◌else◌, take, replicate,
}
use phantom_os.CString.{Buffer, Text}
use phantom_os.FileSystem.{
  FileType, regular, directory, Ptr, Node, Fs, update, max_filename_length, max_file_size,
  max_total_files, pool_size, node_size,
}

-- The sum is a 32-bit `size_t`.
unfoldable pub kmalloc : ℕ → Fs → Option Ptr × Fs
kmalloc size s =
    if leb pool_size ((s.memory_offset + size) % 2 ^ 32)
    then (none, s)
    else (some s.memory_offset, record s { memory_offset = (s.memory_offset + size) % 2 ^ 32 })

unfoldable pub get_current_time : Fs → ℕ × Fs
get_current_time s = let t = (s.time_counter + 1) % 2 ^ 32 in (t, record s { time_counter = t })

-- A data buffer after `memset(node->data, 0, MAX_FILE_SIZE)`.
unfoldable pub zero_block : Buffer
zero_block = replicate max_file_size 0

-- The array `children` after `memset(node, 0, sizeof(fs_node_t))`.
abbrev pub no_children : ℕ → Option Ptr
no_children _ = none

-- The data buffer of a regular file; `none` where the allocation fails, and for a directory.
unfoldable pub alloc_content : FileType → Fs → Option Ptr × Fs
alloc_content directory s = (none, s)
alloc_content regular s =
    let (b, s') = kmalloc max_file_size s in
    elim b [
      | none ↦ (none, s')
      | some q ↦ (some q, record s' { block = update s'.block q (some zero_block) })
    ]

-- `strncpy(node->name, name, MAX_FILENAME_LENGTH - 1)` keeps one character less than its bound.
abbrev pub stored_name : Text → Text
stored_name name = take (max_filename_length - 1 - 1) name

-- What `fs_create_file` does with the memory of the new node at `p`.
unfoldable pub init_node : Text → FileType → Ptr → Fs → Option Ptr × Fs
init_node name type p s =
    let (t, s1) = get_current_time s in
    let (b, s2) = alloc_content type s1 in
    let fresh : Node = record {
      name = stored_name name;
      type = type;
      size = 0;
      creation_time = t;
      modification_time = t;
      content = b;
      parent = none;
      children = no_children;
      child_count = 0;
      next = s2.file_list_head;
    } in
    (
      some p,
      record s2 {
        node = update s2.node p (some fresh);
        file_list_head = some p;
        total_files = (s2.total_files + 1) % 2 ^ 32;
      },
    )

unfoldable pub create_file : Text → FileType → Fs → Option Ptr × Fs
create_file name type s =
    if leb max_total_files s.total_files
    then (none, s)
    else (let (p, s1) = kmalloc node_size s in
        elim p [ none ↦ (none, s1) | some q ↦ init_node name type q s1 ])
