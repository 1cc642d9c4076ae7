-- ===== src/Editor/Tests.antt =====
-- Runs of the editor on a text of two rows.
use phantom_os.Prelude.{
  ℕ, zero, suc, ◌≡◌, refl, arith, none, some, List, [], ◌∷◌, replicate, ◌>>=◌, ◌++◌, Option, length,
  drop, Ends,
}
use phantom_os.CString.{Text, codes, pos, negsuc}
use phantom_os.FileSystem.{regular, Ptr, Node, Fs}
use phantom_os.FileSystem.Alloc.{
  kmalloc, get_current_time, zero_block, alloc_content, init_node, create_file,
}
use phantom_os.FileSystem.Invariant.Init.{initial, root_node}
use phantom_os.FileSystem.Operations.Files.{
  IsFiles, CreatedFiles, no_node, new_node, create_file-CreatedFiles,
}
use phantom_os.FileSystem.Operations.Initial.{initial-IsFiles}
use phantom_os.Terminal.{Terminal}
use phantom_os.Terminal.Cursor.{IsOnScreen}
use phantom_os.Editor.Draw.{editor_draw}
use phantom_os.Editor.Files.{save_content, save_lines, load_content}
use phantom_os.Editor.Keys.{editor_process_key}
use phantom_os.Editor.Opening.{named}
use phantom_os.Editor.RoundTrip.{IsPlain, ReadsBack, load_content-save_lines}
use phantom_os.Editor.SaveLoad.{IsSaved, save_content-IsSaved}
use phantom_os.Editor.Saving.{IsEditing}
use phantom_os.Editor.Saving.Keys.{editor_process_key-IsEditing}
use phantom_os.Editor.Screen.{editor_draw-IsOnScreen}
use phantom_os.Editor.Session.{IsSession}
use phantom_os.Editor.{
  Rows, Editor, editor_init, editor_move_cursor, editor_insert_char, editor_delete_char,
}
use phantom_os.Editor.Edit.{FitsRows, IsEditor}
use phantom_os.Editor.Cursor.{IsVisible, editor_move_cursor-IsEditor}
use phantom_os.Editor.Backspace.{RestoresText, editor_delete_char-insert_char}

abbrev rows_of : List Text → Rows
rows_of [] i = []
rows_of (t ∷ ts) zero = t
rows_of (t ∷ ts) (suc i) = rows_of ts i

-- The cursor between the two letters of the second row.
abbrev two_rows : Editor
two_rows = record editor_init {
  buffer = rows_of (codes "ab" ∷ codes "cd" ∷ []);
  line_count = 2;
  cursor_x = 1;
  cursor_y = 1;
}

two_rows-FitsRows : FitsRows two_rows.buffer
two_rows-FitsRows zero = omega arith
two_rows-FitsRows (suc zero) = omega arith
two_rows-FitsRows (suc (suc i)) = omega arith

two_rows-IsEditor : IsEditor two_rows
two_rows-IsEditor = record {
  lines_min = omega arith;
  lines_max = omega arith;
  row_bound = omega arith;
  column_bound = omega arith;
  rows = two_rows-FitsRows;
}

editor_delete_char-insert_char_example :
    RestoresText two_rows (editor_insert_char 10 two_rows >>= λ e1. editor_delete_char e1)
editor_delete_char-insert_char_example =
    editor_delete_char-insert_char 10 two_rows two_rows-IsEditor (omega arith)

editor_move_cursor-IsEditor_example :
    (e' : Editor) × (editor_move_cursor (pos 9) (negsuc 4) two_rows ≡ some e')
    × IsEditor e'
    × IsVisible e'
    × (e'.buffer ≡ two_rows.buffer)
    × (e'.line_count ≡ 2)
editor_move_cursor-IsEditor_example =
    editor_move_cursor-IsEditor (pos 9) (negsuc 4) two_rows two_rows-IsEditor

-- Two long rows, the cursor at the start of the second.
abbrev long_rows : Editor
long_rows = record editor_init { buffer = λ _. replicate 40 b'x'; line_count = 2; cursor_y = 1 }

two_rows-IsSession : IsSession two_rows
two_rows-IsSession = record {
  text = two_rows-IsEditor;
  command_bound = omega arith;
  name_bound = omega arith;
  status_bound = omega arith;
}

editor_process_key-IsEditing_example : Ends IsEditing (editor_process_key b'x' 45 two_rows initial)
editor_process_key-IsEditing_example =
    editor_process_key-IsEditing b'x' 45 two_rows-IsSession (λ e. omega arith) initial-IsFiles

-- A screen with the cursor in its last cell.
abbrev full_screen : Terminal
full_screen = record { row = 24; column = 79; color = 7; buffer = λ i. i }

editor_draw-IsOnScreen_example : Ends IsOnScreen (editor_draw two_rows full_screen)
editor_draw-IsOnScreen_example = editor_draw-IsOnScreen full_screen two_rows-IsSession

two_rows-IsPlain : (j : ℕ) → IsPlain (two_rows.buffer j)
two_rows-IsPlain zero = (omega arith, omega arith, (omega arith, omega arith, tt))
two_rows-IsPlain (suc zero) = (omega arith, omega arith, (omega arith, omega arith, tt))
two_rows-IsPlain (suc (suc j)) = tt

load_content-save_lines_example :
    Ends
      (ReadsBack 1 two_rows.buffer)
      (load_content (save_lines 2 0 two_rows.buffer ++ 0 ∷ codes "old") (named (codes "f")))
load_content-save_lines_example =
    load_content-save_lines 1 two_rows.buffer (codes "f") (codes "old") two_rows-IsPlain
      two_rows-FitsRows (omega arith)

-- After `fs_create_file("f", FILE_TYPE_REGULAR)`.
abbrev file_made : Fs
file_made = (create_file (codes "f") regular initial).1

abbrev file_node : Node
file_node = record (root_node none) {
  name = codes "f";
  type = regular;
  creation_time = 2;
  modification_time = 2;
  content = some 448;
  next = some 0;
}

file_made-IsFiles : IsFiles file_made
file_made-IsFiles = from (create_file-CreatedFiles (codes "f") regular initial-IsFiles)
  where
    from : {r : Option Ptr × Fs} → CreatedFiles initial (codes "f") regular r → IsFiles r.1
    from no_node = initial-IsFiles
    from (new_node q s' new) = new.files

file_at : file_made.node 224 ≡ some file_node
unfolding create_file kmalloc init_node get_current_time alloc_content
file_at = refl

block_at : file_made.block 448 ≡ some zero_block
unfolding create_file kmalloc init_node get_current_time alloc_content
block_at = refl

clean_after : drop (length (save_lines 2 0 two_rows.buffer)) zero_block ≡ 0 ∷ replicate 4090 0
unfolding save_lines zero_block replicate
clean_after = refl

save_content-IsSaved_example :
    Ends
      (IsSaved 1 two_rows.buffer (codes "f") 448 two_rows)
      (save_content (save_lines 2 0 two_rows.buffer) (some 224) two_rows file_made)
save_content-IsSaved_example =
    save_content-IsSaved 1 two_rows.buffer (codes "f") (replicate 4090 0) two_rows file_made-IsFiles
      (record { cell = file_at; file = refl; buffer = refl }) block_at clean_after two_rows-IsPlain
      two_rows-FitsRows (omega arith)
