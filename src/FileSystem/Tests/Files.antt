-- ===== src/FileSystem/Tests/Files.antt =====
-- A file in the root directory, and its copy.
use phantom_os.Prelude.{
  ℕ, ◌≡◌, refl, none, some, [], ◌++◌, replicate, length-replicate, take, drop, arith,
}
use phantom_os.CString.{codes}
use phantom_os.CString.Compare.{text_eq}
use phantom_os.FileSystem.Directory.{Entry}
use phantom_os.FileSystem.Operations.Moved.{MovedFile, move_file-MovedFile}
use phantom_os.FileSystem.Operations.Copied.{IsSource, CopiedFile, copy_file-CopiedFile}
use phantom_os.FileSystem.{update, regular, success, Node, Fs}
use phantom_os.FileSystem.Alloc.{zero_block, get_current_time}
use phantom_os.FileSystem.Invariant.Create.{fresh_at}
use phantom_os.FileSystem.Operations.Write.{written}
use phantom_os.FileSystem.Operations.Contents.{written-Stays}
use phantom_os.FileSystem.Operations.Texts.{HoldsText}
use phantom_os.FileSystem.Lookup.{
  find_slot, find_child, split_slash, step, resolve_loop, resolve_from, resolve_path,
}
use phantom_os.FileSystem.Tree.{touch, attach}
use phantom_os.FileSystem.Paths.{last_slash, get_parent_path, get_filename}
use phantom_os.FileSystem.Transfer.{copy_file, move_file}
use phantom_os.FileSystem.Invariant.Init.{root_node, initial}
use phantom_os.FileSystem.Operations.Files.{IsFiles}
use phantom_os.FileSystem.Operations.Initial.{initial-IsFiles}
use phantom_os.FileSystem.Operations.Making.{IsPlainName, HasSpace, with_file}
use phantom_os.FileSystem.Operations.Placing.{
  HasPlace, NewFile, add_file-NewFile, NewFile-resolve_path,
}

pub initial-HasSpace : HasSpace initial
initial-HasSpace = record { few = omega arith; room = omega arith }

free_note : find_child initial (some 0) (codes "note") ≡ some none
unfolding find_child find_slot
free_note = refl

pub initial-HasPlace : HasPlace initial 0 (codes "note")
initial-HasPlace = record { node = _; at = refl; dir = refl; slots = omega arith; free = free_note }

pub note-IsPlainName : IsPlainName (codes "note")
note-IsPlainName = record {
  name = (omega arith, (omega arith, (omega arith, (omega arith, tt))));
  no_dot = λ e. cc (e);
  no_dots = λ e. cc (e);
  short = omega arith;
}

-- The root directory with an empty file.
abbrev pub with_note : Fs
with_note = attach 0 224 (with_file (codes "note") initial)

pub note-NewFile : NewFile initial 0 224 (codes "note") [] with_note
note-NewFile =
    (add_file-NewFile (codes "note") initial-IsFiles initial-HasSpace refl initial-HasPlace
      (omega arith)).1

pub note_found : resolve_path with_note (codes "note") ≡ some (some 224)
note_found = NewFile-resolve_path refl note-IsPlainName note-NewFile

-- The file with "hello" in it.
abbrev hello_note : Fs
hello_note = written with_note 224 448 (take 5 (codes "hello") ++ drop 5 zero_block) 5

abbrev note_node : Node
note_node = fresh_at (codes "note") regular (some 448) (some 0) 2

hello_note-IsFiles : IsFiles hello_note
unfolding zero_block attach touch get_current_time
hello_note-IsFiles =
    (written-Stays 224 (codes "hello") zero_block 5 note-NewFile.files refl
      (length-replicate {A = ℕ} 4096 0) (omega arith) (omega arith)).files

hello_note-HoldsText : HoldsText hello_note 224 (codes "hello")
unfolding zero_block replicate attach touch get_current_time
hello_note-HoldsText = record {
  node = record note_node { parent = some 0; size = 5; modification_time = 4 };
  buffer = 448;
  file = record { cell = refl; file = refl; buffer = refl };
  bytes = refl;
  plain = (omega arith, (omega arith, (omega arith, (omega arith, (omega arith, tt)))));
  short = omega arith;
}

hello_found : resolve_path hello_note (codes "note") ≡ some (some 224)
unfolding resolve_path resolve_from resolve_loop split_slash step text_eq find_child find_slot
    attach touch get_current_time
hello_found = refl

root_found : resolve_path hello_note (codes "/") ≡ some (some 0)
unfolding resolve_path resolve_from attach touch get_current_time
root_found = refl

free_copy : find_child hello_note (some 0) (codes "copy") ≡ some none
unfolding find_child find_slot text_eq attach touch get_current_time
free_copy = refl

hello_source : IsSource hello_note 224 (codes "hello")
unfolding hello_note-HoldsText
hello_source = record { holds = hello_note-HoldsText; sized = omega arith }

hello_note-HasSpace : HasSpace hello_note
unfolding attach touch get_current_time
hello_note-HasSpace = record { few = omega arith; room = omega arith }

copy-HasPlace : HasPlace hello_note 0 (codes "copy")
unfolding attach touch get_current_time
copy-HasPlace = record {
  node = record (root_node (some 0)) {
    children = update (root_node (some 0)).children 0 (some 224);
    child_count = 1;
    modification_time = 3;
  };
  at = refl;
  dir = refl;
  slots = omega arith;
  free = free_copy;
}

up_copy : get_parent_path (codes "/copy") ≡ some (codes "/")
unfolding get_parent_path last_slash
up_copy = refl

base_copy : get_filename (codes "/copy") ≡ some (codes "copy")
unfolding get_filename last_slash
base_copy = refl

copy_file-CopiedFile_example :
    (s' : Fs) × (copy_file (codes "note") (codes "/copy") hello_note ≡ some (success, s'))
    × CopiedFile hello_note 224 0
        (codes "copy")
        (codes "hello")
        (take hello_source.holds.node.size (codes "hello"))
        s'
copy_file-CopiedFile_example =
    copy_file-CopiedFile (codes "note") (codes "/copy") (codes "/") (codes "copy")
      hello_note-IsFiles hello_note-HasSpace hello_found hello_source up_copy base_copy root_found
      copy-HasPlace (omega arith)

note-Entry : Entry hello_note.node 0 (codes "note") 224
unfolding copy-HasPlace hello_note-HoldsText attach touch get_current_time
note-Entry = record {
  dir = copy-HasPlace.node;
  dir_at = refl;
  slot = 0;
  holds = refl;
  target = hello_note-HoldsText.node;
  target_at = refl;
  named = refl;
}

hello_dir : hello_note.current_dir ≡ some 0
unfolding attach touch get_current_time
hello_dir = refl

move_file-MovedFile_example :
    (s' : Fs) × (move_file (codes "note") (codes "/copy") hello_note ≡ some (success, s'))
    × MovedFile hello_note 0
        (codes "note")
        0
        hello_note.memory_offset
        (codes "copy")
        (take hello_source.holds.node.size (codes "hello"))
        s'
move_file-MovedFile_example =
    move_file-MovedFile (codes "note") (codes "/copy") (codes "/") (codes "copy") hello_note-IsFiles
      hello_note-HasSpace hello_dir note-IsPlainName note-Entry hello_source up_copy base_copy
      root_found copy-HasPlace (omega arith)
