-- ===== src/Editor/SaveLoad.antt =====
-- What the save and the load of src/kernel/editor.c do together through a file.

use phantom_os.Prelude.{
  ℕ, zero, suc, ◌≤◌, ◌<◌, ◌≡◌, refl, ap, ◌∙◌, arith, Bool, some, [], ◌∷◌, ◌++◌, length, take, drop,
  length-append, Ends, Ends-value, ◌==◌, ◌>>=◌, if◌then◌else◌, min,
}
use phantom_os.CString.{Buffer, Text, pos}
use phantom_os.FileSystem.{Ptr, Node, Fs}
use phantom_os.FileSystem.Content.{write_file}
use phantom_os.FileSystem.Transfer.{is_zero}
use phantom_os.FileSystem.Invariant.Create.{IsWellFormed}
use phantom_os.FileSystem.Operations.Files.{IsFiles}
use phantom_os.FileSystem.Operations.Write.{IsFile, write_file-take}
use phantom_os.Editor.{Rows, Editor, max_lines}
use phantom_os.Editor.Edit.{FitsRows}
use phantom_os.Editor.Files.{save_lines, saved, not_saved, save_content, load_content}
use phantom_os.Editor.Opening.{named}
use phantom_os.Editor.Saving.{length-save_lines}
use phantom_os.Editor.RoundTrip.{IsPlain, ReadsBack, load_content-save_lines}

take-prefix : (t u : Text) → take (length t) (t ++ u) ≡ t
take-prefix [] u = refl
take-prefix (c ∷ t) u = ap (λ (x : Text). c ∷ x) (take-prefix t u)

-- The call on a file, for a text that fits into its buffer.
save_content-written :
    {s : Fs} {p b : Ptr} {n : Node} {old : Buffer} (content : Text) (e : Editor)
    → IsFiles s
    → IsFile s p n b
    → s.block b ≡ some old
    → length content ≤ 3800
    → (s' : Fs) × (save_content content (some p) e s
        ≡ some (if is_zero (pos (length content)) then saved e else not_saved e, s'))
      × (s'.block b ≡ some (content ++ drop (length content) old))
unfolding save_content
save_content-written {s} {p} {b} {old = old} content e ok f at short =
    let exact : min (length content) 4096 ≡ length content = omega (arith, short) in
    let enough : min (length content) 4096 ≤ length (content ++ 0 ∷ []) =
      omega (arith, exact, length-append content (0 ∷ [])) in
    from (min (length content) 4096) exact
      (write_file-take (content ++ 0 ∷ []) (length content) ok.well f enough)
  where
    from :
        (k : ℕ)
        → k ≡ length content
        → (old' : Buffer) × (s' : Fs) × (n' : Node) × (s.block b ≡ some old')
          × (write_file (some p) (content ++ 0 ∷ []) (length content) s ≡ some (pos k, s'))
          × (s'.block b ≡ some (take k (content ++ 0 ∷ []) ++ drop k old'))
          × (s'.node p ≡ some n')
          × (n'.size ≡ k)
          × IsWellFormed s'
        → (s' : Fs) × (save_content content (some p) e s
            ≡ some (if is_zero (pos (length content)) then saved e else not_saved e, s'))
          × (s'.block b ≡ some (content ++ drop (length content) old))
    from k exact (old', s', n', at', run, new, cell, size, ok') =
        let same : old' ≡ old = cc (at, at') in
        (
          s',
          rw (run, ◌>>=◌)
              (ap (λ (j : ℕ). some (if is_zero (pos j) then saved e else not_saved e, s')) exact),
          new
              ∙ ap (λ (j : ℕ). some (take j (content ++ 0 ∷ []) ++ drop j old')) exact
              ∙ ap
                  (λ (x : Buffer).
                    some (take (length content) (content ++ 0 ∷ []) ++ drop (length content) x))
                  same
              ∙ ap (λ (x : Text). some (x ++ drop (length content) old))
                  (take-prefix content (0 ∷ [])),
        )

is_zero-pos : (n : ℕ) → is_zero (pos n) ≡ (n == 0)
is_zero-pos zero = refl
is_zero-pos (suc n) = ground arith

-- What is in the file and on the status line after a save.
pub record IsSaved (m : ℕ) (rows : Rows) (filename : Text) (b : Ptr) (e : Editor) (r : Editor × Fs)
    : Type 0 where
  pub bytes : Buffer
  pub at : r.1.block b ≡ some bytes
  pub reads_back : Ends (ReadsBack m rows) (load_content bytes (named filename))
  pub told : r.0 ≡ (if length (save_lines (suc m) 0 rows) == 0 then saved e else not_saved e)

-- A text that is saved into a file with a NUL at its end reads back; the status line says that the
-- save failed, and `modified` stays, unless the text is empty.
pub save_content-IsSaved :
    {s : Fs} {p b : Ptr} {n : Node} {old : Buffer} (m : ℕ) (rows : Rows) (filename : Text)
    (rest : Buffer) (e : Editor)
    → IsFiles s
    → IsFile s p n b
    → s.block b ≡ some old
    → drop (length (save_lines (suc m) 0 rows)) old ≡ 0 ∷ rest
    → ((j : ℕ) → IsPlain (rows j))
    → FitsRows rows
    → m < max_lines
    → Ends (IsSaved m rows filename b e) (save_content (save_lines (suc m) 0 rows) (some p) e s)
save_content-IsSaved m rows filename rest e ok f at clean plain fits room =
    let content = save_lines (suc m) 0 rows in
    let (s', run, new) =
      save_content-written content e ok f at
        (omega (arith, length-save_lines (suc m) 0 rows fits, room)) in
    Ends-value run (record {
      bytes = content ++ 0 ∷ rest;
      at = new ∙ ap (λ (x : Buffer). some (content ++ x)) clean;
      reads_back = load_content-save_lines m rows filename rest plain fits room;
      told = ap (λ (x : Bool). if x then saved e else not_saved e) (is_zero-pos (length content));
    })
