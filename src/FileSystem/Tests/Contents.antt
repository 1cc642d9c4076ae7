-- ===== src/FileSystem/Tests/Contents.antt =====
-- Runs of the file system on a regular file.
use phantom_os.Prelude.{
  ℕ, ◌≡◌, refl, ◌↔◌, none, some, ◌∷◌, ◌++◌, length, drop, replicate, length-replicate, arith,
}
use phantom_os.CString.{Buffer, codes, ℤ, pos}
use phantom_os.FileSystem.{regular, Node, Fs}
use phantom_os.FileSystem.Alloc.{
  kmalloc, get_current_time, zero_block, alloc_content, init_node, create_file,
}
use phantom_os.FileSystem.Content.{write_file}
use phantom_os.FileSystem.Invariant.Create.{IsWellFormed, create_file-IsWellFormed}
use phantom_os.FileSystem.Invariant.Init.{initial, initial-IsWellFormed}
use phantom_os.FileSystem.Operations.Write.{
  IsFile, written, written-IsWellFormed, write_file-take, write_file-eq_zero,
}
use phantom_os.FileSystem.Tests.{usr_node}

-- After `fs_create_file("f", FILE_TYPE_REGULAR)`: a node at 224 and its data buffer at 448.
abbrev file_made : Fs
file_made = (create_file (codes "f") regular initial).1

abbrev file_node : Node
file_node = record (usr_node none) { name = codes "f"; type = regular; content = some 448 }

file_made-IsWellFormed : IsWellFormed file_made
file_made-IsWellFormed = create_file-IsWellFormed initial (codes "f") regular initial-IsWellFormed

file_at : file_made.node 224 ≡ some file_node
unfolding create_file kmalloc init_node get_current_time alloc_content
file_at = refl

block_at : file_made.block 448 ≡ some zero_block
unfolding create_file kmalloc init_node get_current_time alloc_content
block_at = refl

file_made-IsFile : IsFile file_made 224 file_node 448
file_made-IsFile = record { cell = file_at; file = refl; buffer = refl }

write_file-take_example :
    (old : Buffer) × (s' : Fs) × (n' : Node) × (file_made.block 448 ≡ some old)
    × (write_file (some 224) (codes "hello") 5 file_made ≡ some (pos 5, s'))
    × (s'.block 448 ≡ some (codes "hello" ++ drop 5 old))
    × (s'.node 224 ≡ some n')
    × (n'.size ≡ 5)
    × IsWellFormed s'
write_file-take_example =
    write_file-take (codes "hello") 5 file_made-IsWellFormed file_made-IsFile (omega arith)

write_file-eq_zero_example :
    (r : ℤ × Fs) × (write_file (some 224) (codes "hello") 5 file_made ≡ some r)
    × ((r.0 ≡ pos 0) ↔ (length (codes "hello") ≡ 0))
write_file-eq_zero_example =
    write_file-eq_zero (codes "hello") 5 file_made-IsWellFormed file_made-IsFile (omega arith)

-- The file with "hello" in it.
abbrev hello_written : Fs
hello_written = written file_made 224 448 (codes "hello" ++ 0 ∷ replicate 4090 0) 5

hello_written-IsWellFormed : IsWellFormed hello_written
hello_written-IsWellFormed =
    written-IsWellFormed 224 448 zero_block (codes "hello" ++ 0 ∷ replicate 4090 0) 5
      file_made-IsWellFormed block_at (omega (arith, length-replicate {A = ℕ} 4090 0)) (omega arith)

hello_at : hello_written.node 224 ≡ some (record file_node { size = 5; modification_time = 3 })
unfolding create_file kmalloc init_node get_current_time alloc_content
hello_at = refl

hello_written-IsFile :
    IsFile hello_written 224 (record file_node { size = 5; modification_time = 3 }) 448
hello_written-IsFile = record { cell = hello_at; file = refl; buffer = refl }
