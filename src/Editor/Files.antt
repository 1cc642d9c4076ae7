-- ===== src/Editor/Files.antt =====
-- `editor_open` and `editor_save_file` of src/kernel/editor.c.
use phantom_os.Prelude.{
  ℕ, zero, suc, ◌+◌, ◌-◌, Option, none, some, [], ◌∷◌, ◌++◌, ◌==◌, ltb, if◌then◌else◌, length,
  ◌>>=◌, false,
}
use phantom_os.CString.{Buffer, Text, codes}
use phantom_os.FileSystem.{regular, is_directory, Ptr, Fs, update}
use phantom_os.FileSystem.Alloc.{create_file}
use phantom_os.FileSystem.Lookup.{resolve_path}
use phantom_os.FileSystem.Tree.{add_child}
use phantom_os.FileSystem.Content.{read_file, write_file}
use phantom_os.FileSystem.Transfer.{is_zero}
use phantom_os.Editor.{Rows, Editor, max_lines, max_line_length}

-- The loop of `editor_open`: `text` holds the first `col` characters of the row `line`.
pub record Loading : Type 0 where
  pub line : ℕ
  pub text : Text
  pub rows : Rows

unfoldable pub load_char : ℕ → Loading → Loading
load_char c l =
    if c == 10
    then record { line = l.line + 1; text = []; rows = update l.rows l.line l.text }
    else if ltb (length l.text) (max_line_length - 1)
    then record l { text = l.text ++ c ∷ [] }
    else l

-- `content[i] != '\0' && line < EDITOR_MAX_LINES`, on the bytes from `content` on: the byte is read
-- first, and there is none behind the buffer.
unfoldable pub load_loop : Buffer → Loading → Option Loading
load_loop [] l = none
load_loop (c ∷ content) l =
    let rest = load_loop content (load_char c l) in
    if c == 0 then some l else if ltb l.line max_lines then rest else some l

-- The last row, where it does not end in '\n'.
unfoldable pub load_end : Loading → Option Loading
load_end l =
    if ltb 0 (length l.text)
    then if ltb l.line max_lines
      then some (record { line = l.line + 1; text = l.text; rows = update l.rows l.line l.text })
      else none
    else some l

unfoldable pub load_content : Buffer → Editor → Option Editor
load_content content e = do
  l ← load_loop content (record { line = 0; text = []; rows = e.buffer })
  l ← load_end l
  some (record e { buffer = l.rows; line_count = if ltb 0 l.line then l.line else 1 })

-- `filename` is copied before the file is looked up.
unfoldable pub editor_open : Text → Fs → Editor → Option Editor
editor_open filename s e =
    let e1 = record e { filename = filename } in
    resolve_path s filename >>= λ found. elim found [
      | none ↦ some e1
      | some p ↦
          (s.node p >>= λ n.
          if is_directory n.type
          then some e1
          else (read_file s (some p) >>= λ content. elim content [
            | none ↦ some e1
            | some b ↦ (s.block b >>= λ bytes. load_content bytes e1)
          ]))
    ]

-- The rows from `i` on, `left` of them, with '\n' between them.
unfoldable pub save_lines : (left i : ℕ) → Rows → Text
save_lines zero i rows = []
save_lines (suc left) i rows =
    let rest = save_lines left (suc i) rows in if left == 0 then rows i else rows i ++ 10 ∷ rest

-- `sizeof(content)`
abbrev pub content_size : ℕ
content_size = 3800

-- The file that is written to: it is created where there is none, and added to the current
-- directory, whose code is ignored.
unfoldable pub save_target : Text → Fs → Option (Option Ptr × Fs)
save_target filename s = resolve_path s filename >>= λ found. elim found [
  | some p ↦ some (some p, s)
  | none ↦
      (let (f, s1) = create_file filename regular s in
        elim f [
          | none ↦ some (none, s1)
          | some q ↦ (add_child s.current_dir (some q) s1 >>= λ r. some (some q, r.1))
        ])
]

abbrev pub saved : Editor → Editor
saved e = record e { modified = false; status_message = codes "File saved" }

abbrev pub not_saved : Editor → Editor
not_saved e = record e { status_message = codes "Error saving file" }

-- The bytes written to the target, and what the status line then says.
unfoldable pub save_content : Text → Option Ptr → Editor → Fs → Option (Editor × Fs)
save_content content none e s = some (not_saved e, s)
save_content content (some p) e s =
    write_file (some p) (content ++ 0 ∷ []) (length content) s >>= λ r.
    some (if is_zero r.0 then saved e else not_saved e, r.1)

unfoldable pub editor_save_file : Editor → Fs → Option (Editor × Fs)
editor_save_file e s =
    let content = save_lines e.line_count 0 e.buffer in
    if ltb (length content) content_size
    then (save_target e.filename s >>= λ t. save_content content t.0 e t.1)
    else none
