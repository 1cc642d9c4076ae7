-- ===== src/Editor/Opening.antt =====
-- `editor_open` of src/kernel/editor.c: the text that it loads is within the bounds of the buffer.
use phantom_os.Prelude.{
  ℕ, zero, suc, ◌-◌, ◌≤◌, ◌<◌, ◌≡◌, ◌≢◌, ◌⊎◌, arith, true, false, Bool-cases, Option-cases, inl,
  inr, ltb, ◌==◌, if◌then◌else◌, Option, none, some, [], ◌∷◌, drop, replicate, length,
  length-append, Ends, ends, Ends-bind, Ends-if, ◌>>=◌,
}
use phantom_os.CString.{Buffer, Text}
use phantom_os.FileSystem.{Ptr, Node, Fs, is_directory}
use phantom_os.FileSystem.Content.{read_file}
use phantom_os.FileSystem.Invariant.Resolve.{IsValidPtr, resolve_path-IsValidPtr}
use phantom_os.FileSystem.Invariant.Tidy.{text_limit, HasTail}
use phantom_os.FileSystem.Operations.Files.{IsFiles}
use phantom_os.FileSystem.Operations.Copy.{found_node}
use phantom_os.Editor.{Editor, editor_init, max_lines, max_line_length}
use phantom_os.Editor.Edit.{FitsRows, update-FitsRows}
use phantom_os.Editor.Files.{Loading, load_char, load_loop, load_end, load_content, editor_open}
use phantom_os.Editor.Session.{IsSession}

-- A row that is not empty has a place in the buffer.
record IsLoading (l : Loading) : Type 0 where
  line_bound : l.line ≤ max_lines
  text_bound : length l.text < max_line_length
  place : 0 < length l.text → l.line < max_lines
  rows : FitsRows l.rows

load_char-IsLoading :
    (c : ℕ) {l : Loading} → l.line < max_lines → IsLoading l → IsLoading (load_char c l)
unfolding load_char
load_char-IsLoading c {l} room h = elim (Bool-cases (c == 10)) [
  | inl newline ↦ rw newline (record {
    line_bound = omega (arith, room);
    text_bound = omega arith;
    place = λ more. absurd (omega (arith, more));
    rows = update-FitsRows l.rows l.line l.text h.rows h.text_bound;
  })
  | inr other ↦ elim (Bool-cases (ltb (length l.text) (max_line_length - 1))) [
    | inl fits ↦ rw other (
        rw fits (record {
          line_bound = h.line_bound;
          text_bound = ground (arith, fits, length-append l.text (c ∷ []));
          place = λ more. room;
          rows = h.rows;
        }))
    | inr full ↦ rw other (rw full h)
  ]
]

-- The loop ends at the NUL, or before it with 50 rows.
load_loop-IsLoading :
    (m : ℕ) (bytes rest : Buffer) {l : Loading}
    → drop m bytes ≡ 0 ∷ rest
    → IsLoading l
    → Ends IsLoading (load_loop bytes l)
unfolding load_loop
load_loop-IsLoading m [] rest e h = absurd (nothing_left m e)
  where
    nothing_left : (m : ℕ) {rest : Buffer} → drop {A = ℕ} m [] ≢ 0 ∷ rest
    nothing_left zero e = cc (e)
    nothing_left (suc m) e = cc (e)
load_loop-IsLoading zero (c ∷ bytes) rest e h = let nul : c ≡ 0 = cc (e) in rw nul (ends h)
load_loop-IsLoading (suc m) (c ∷ bytes) rest {l} e h = Ends-if (c == 0) (ends h) (
    within (Bool-cases (ltb l.line max_lines)) h
      (λ room. load_loop-IsLoading m bytes rest e (load_char-IsLoading c room h)))
  where
    within :
        {l : Loading} {r : Option Loading}
        → (ltb l.line max_lines ≡ true) ⊎ (ltb l.line max_lines ≡ false)
        → IsLoading l
        → (l.line < max_lines → Ends IsLoading r)
        → Ends IsLoading (if ltb l.line max_lines then r else some l)
    within (inl room) h k = rw room (k (ground (arith, room)))
    within (inr full) h k = rw full (ends h)

-- The rows that were loaded.
record IsLoaded (l : Loading) : Type 0 where
  line_bound : l.line ≤ max_lines
  rows : FitsRows l.rows

load_end-IsLoaded : {l : Loading} → IsLoading l → Ends IsLoaded (load_end l)
unfolding load_end
load_end-IsLoaded {l} h = elim (Bool-cases (ltb 0 (length l.text))) [
  | inl more ↦
      let below : l.line < max_lines = h.place (ground (arith, more)) in
      let room : ltb l.line max_lines ≡ true = ground (arith, below) in
      rw more (
        rw room (
          ends (record {
            line_bound = omega (arith, below);
            rows = update-FitsRows l.rows l.line l.text h.rows h.text_bound;
          })))
  | inr done ↦ rw done (ends (record { line_bound = h.line_bound; rows = h.rows }))
]

-- The editor before a file is loaded into it.
abbrev pub named : Text → Editor
named filename = record editor_init { filename = filename }

pub named-IsSession : (filename : Text) → length filename < 64 → IsSession (named filename)
named-IsSession filename short = record {
  text = record {
    lines_min = omega arith;
    lines_max = omega arith;
    row_bound = omega arith;
    column_bound = omega arith;
    rows = λ i. omega arith;
  };
  command_bound = omega arith;
  name_bound = short;
  status_bound = omega arith;
}

at_least : (n : ℕ) → 0 < (if ltb 0 n then n else 1)
at_least n = elim (Bool-cases (ltb 0 n)) [
  | inl more ↦ rw more (ground (arith, more))
  | inr none_read ↦ rw none_read (omega arith)
]

at_most : (n : ℕ) → n ≤ max_lines → (if ltb 0 n then n else 1) ≤ max_lines
at_most n h = elim (Bool-cases (ltb 0 n)) [
  | inl more ↦ rw more h
  | inr none_read ↦ rw none_read (omega arith)
]

load_content-IsSession :
    (bytes : Buffer) (filename : Text)
    → HasTail bytes
    → length filename < 64
    → Ends IsSession (load_content bytes (named filename))
unfolding load_content replicate
load_content-IsSession bytes filename tail short =
    Ends-bind
      (load_loop-IsLoading text_limit bytes (replicate 295 0) tail (record {
        line_bound = omega arith;
        text_bound = omega arith;
        place = λ more. omega arith;
        rows = λ i. omega arith;
      }))
      (λ l h. Ends-bind (load_end-IsLoaded h) (λ l k. ends (record {
        text = record {
          lines_min = at_least l.line;
          lines_max = at_most l.line k.line_bound;
          row_bound = at_least l.line;
          column_bound = omega arith;
          rows = k.rows;
        };
        command_bound = omega arith;
        name_bound = short;
        status_bound = omega arith;
      })))

-- Whatever the path leads to, the editor opens with its bounds kept.
pub editor_open-IsSession :
    {s : Fs} (filename : Text)
    → IsFiles s
    → length filename < 64
    → Ends IsSession (editor_open filename s (named filename))
unfolding editor_open read_file
editor_open-IsSession {s} filename ok short =
    let (found, e, valid) = resolve_path-IsValidPtr filename ok.well.tree in
    rw (e, ◌>>=◌) (from found valid)
  where
    shown_content :
        {p : Ptr} {n : Node}
        → s.node p ≡ some n
        → (n.content ≡ none) ⊎ ((b : Ptr) × (n.content ≡ some b))
        → Ends IsSession (elim n.content [
          | none ↦ some (named filename)
          | some b ↦ (s.block b >>= λ bytes. load_content bytes (named filename))
        ])
    shown_content at (inl empty) = rw empty (ends (named-IsSession filename short))
    shown_content {p} {n} at (inr (b, buffer)) =
        let (bytes, cell, full) = (ok.well.tree.nodes p n at).bytes b buffer in
        rw buffer (
          rw (cell, ◌>>=◌)
            (load_content-IsSession bytes filename (ok.tidy.tails b bytes cell) short))

    from :
        (found : Option Ptr)
        → IsValidPtr s found
        → Ends IsSession (elim found [
          | none ↦ some (named filename)
          | some p ↦
              (s.node p >>= λ n.
              if is_directory n.type
              then some (named filename)
              else (read_file s (some p) >>= λ content. elim content [
                | none ↦ some (named filename)
                | some b ↦ (s.block b >>= λ bytes. load_content bytes (named filename))
              ]))
        ])
    from none valid = ends (named-IsSession filename short)
    from (some p) valid =
        let (n, at, placed) = found_node s valid in
        rw (at, ◌>>=◌)
          (elim (Bool-cases (is_directory n.type)) [
            | inl dir ↦ rw dir (ends (named-IsSession filename short))
            | inr file ↦ rw file (shown_content at (Option-cases n.content))
          ])
