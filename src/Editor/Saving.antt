-- ===== src/Editor/Saving.antt =====
-- What `editor_save_file` of src/kernel/editor.c leaves of the editor and of the file system.
pub mod Keys
use phantom_os.Prelude.{
  ℕ, zero, suc, ◌-◌, ◌*◌, ◌≤◌, ◌<◌, ◌≡◌, ◌⊎◌, arith, Bool, true, false, Bool-cases, inl, inr, ltb,
  ◌==◌, not, ◌&&◌, if◌then◌else◌, Option, none, some, [], ◌∷◌, ◌++◌, length, length-append,
  length-take, Ends, ends, Ends-bind, Ends-if, ◌>>=◌,
}
use phantom_os.CString.{Text, codes, ℤ}
use phantom_os.CString.Compare.{text_eq}
use phantom_os.FileSystem.{regular, Ptr, Node, Fs}
use phantom_os.FileSystem.Alloc.{create_file}
use phantom_os.FileSystem.Tree.{add_child}
use phantom_os.FileSystem.Transfer.{is_zero}
use phantom_os.FileSystem.Invariant.Resolve.{IsValidPtr, resolve_path-IsValidPtr}
use phantom_os.FileSystem.Operations.Files.{
  IsFiles, CreatedFiles, no_node, new_node, create_file-CreatedFiles,
}
use phantom_os.FileSystem.Operations.Adding.{IsAdding, added, add_new-IsAdding}
use phantom_os.FileSystem.Operations.Contents.{write_file-Stays}
use phantom_os.FileSystem.Operations.Copy.{found_node}
use phantom_os.Editor.{Rows, EditorMode, normal, insert, command, exiting, Editor}
use phantom_os.Editor.Edit.{FitsRows}
use phantom_os.Editor.Files.{
  content_size, save_lines, saved, not_saved, save_target, save_content, editor_save_file,
}
use phantom_os.Editor.Keys.{
  set_status, is_exiting, run_command, editor_process_command, command_key, mode_key,
  editor_process_key,
}
use phantom_os.Editor.Session.{IsSession, JoinFits}
use phantom_os.Editor.Session.Keys.{normal_key-IsSession, arrow_key-IsSession, insert_key-IsSession}

-- A row has at most 75 characters, and there is one '\n' less than there are rows.
pub length-save_lines :
    (left i : ℕ) (rows : Rows) → FitsRows rows → length (save_lines left i rows) ≤ 76 * left - 1
unfolding save_lines
length-save_lines zero i rows fits = omega arith
length-save_lines (suc zero) i rows fits = omega (arith, fits i)
length-save_lines (suc (suc left)) i rows fits =
    let rest = save_lines (suc left) (suc i) rows in
    let step : save_lines (suc (suc left)) i rows ≡ rows i ++ 10 ∷ rest = ground arith in
    rw step (
      omega (
        arith,
        fits i,
        length-append (rows i) (10 ∷ rest),
        length-save_lines (suc left) (suc i) rows fits,
      ))

-- The pointer of a call is NULL or a node's.
pub data IsTarget (s : Fs) : Option Ptr → Type 0 where
  no_target : IsTarget s none
  target : {q : Ptr} (n : Node) → s.node q ≡ some n → IsTarget s (some q)

abbrev IsSaving : Option Ptr × Fs → Type 0
IsSaving r = IsTarget r.1 r.0 × IsFiles r.1

adding-IsSaving :
    {s : Fs} {q : Ptr} {r : Option (ℤ × Fs)}
    → IsAdding s q r
    → Ends IsSaving (r >>= λ a. some (some q, a.1))
adding-IsSaving (added r n ok at) = ends (target n at, ok)

created-IsSaving :
    {s : Fs} {name : Text} {r : Option Ptr × Fs}
    → IsFiles s
    → CreatedFiles s name regular r
    → Ends IsSaving (elim r.0 [
      | none ↦ some (none, r.1)
      | some q ↦ (add_child s.current_dir (some q) r.1 >>= λ a. some (some q, a.1))
    ])
created-IsSaving ok no_node = ends (no_target, ok)
created-IsSaving ok (new_node q s' new) = adding-IsSaving (add_new-IsAdding ok new)

save_target-IsSaving :
    {s : Fs} (filename : Text) → IsFiles s → Ends IsSaving (save_target filename s)
unfolding save_target
save_target-IsSaving {s} filename ok =
    let (found, e, valid) = resolve_path-IsValidPtr filename ok.well.tree in
    rw (e, ◌>>=◌) (go found valid)
  where
    go :
        (found : Option Ptr)
        → IsValidPtr s found
        → Ends IsSaving (elim found [
          | some p ↦ some (some p, s)
          | none ↦
              (let (f, s1) = create_file filename regular s in
                elim f [
                  | none ↦ some (none, s1)
                  | some q ↦ (add_child s.current_dir (some q) s1 >>= λ r. some (some q, r.1))
                ])
        ])
    go none valid = created-IsSaving ok (create_file-CreatedFiles filename regular ok)
    go (some p) valid = let (n, at, placed) = found_node s valid in ends (target n at, ok)

-- The editor and the file system after a call.
pub record IsEditing (r : Editor × Fs) : Type 0 where
  pub session : IsSession r.0
  pub files : IsFiles r.1

-- The editor with another mode, command and message.
abbrev renamed : EditorMode → Text → Text → Bool → Editor → Editor
renamed m c t b e = record e { mode = m; command_buffer = c; status_message = t; modified = b }

renamed-IsSession :
    {e : Editor} (m : EditorMode) (c t : Text) (b : Bool)
    → IsSession e
    → length c < 79
    → length t < 80
    → IsSession (renamed m c t b e)
renamed-IsSession m c t b h short small = record {
  text = record {
    lines_min = h.text.lines_min;
    lines_max = h.text.lines_max;
    row_bound = h.text.row_bound;
    column_bound = h.text.column_bound;
    rows = h.text.rows;
  };
  command_bound = short;
  name_bound = h.name_bound;
  status_bound = small;
}

save_content-IsEditing :
    {e : Editor} {s : Fs} {t : Option Ptr} (content : Text)
    → length content ≤ 3800
    → IsSession e
    → IsFiles s
    → IsTarget s t
    → Ends IsEditing (save_content content t e s)
unfolding save_content
save_content-IsEditing {e} content short h ok no_target = ends (record {
  session = renamed-IsSession e.mode e.command_buffer _ e.modified h h.command_bound (omega arith);
  files = ok;
})
save_content-IsEditing {e} content short h ok (target n at) =
    Ends-bind
      (write_file-Stays (content ++ 0 ∷ []) (length content) ok at
        (omega (arith, length-append content (0 ∷ []))) short)
      (λ r st. ends (record { session = told (is_zero r.0); files = st.files }))
  where
    told : (b : Bool) → IsSession (if b then saved e else not_saved e)
    told true = renamed-IsSession e.mode e.command_buffer _ false h h.command_bound (omega arith)
    told false =
        renamed-IsSession e.mode e.command_buffer _ e.modified h h.command_bound (omega arith)

-- The text of 50 rows fits into the array: the call ends without a fault.
pub editor_save_file-IsEditing :
    {e : Editor} {s : Fs} → IsSession e → IsFiles s → Ends IsEditing (editor_save_file e s)
unfolding editor_save_file
editor_save_file-IsEditing {e} h ok =
    let content = save_lines e.line_count 0 e.buffer in
    let bound = length-save_lines e.line_count 0 e.buffer h.text.rows in
    let room : ltb (length content) content_size ≡ true = ground (arith, bound, h.text.lines_max) in
    rw room (
      Ends-bind (save_target-IsSaving e.filename ok) (λ t kept.
        save_content-IsEditing content (ground (arith, bound, h.text.lines_max)) h kept.1 kept.0))
