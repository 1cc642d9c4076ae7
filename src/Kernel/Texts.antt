-- ===== src/Kernel/Texts.antt =====
-- `write` and `cat` of src/kernel/kernel.c one after the other.
use phantom_os.Prelude.{
  ℕ, zero, suc, ◌≤◌, ◌≡◌, ◌≢◌, refl, ◌∙◌, arith, some, [], ◌∷◌, ◌++◌, length, ◌>>=◌, replicate, ◌-◌,
  Ends, Ends-bind, Ends-map,
}
use phantom_os.CString.{Text, Buffer, ℤ}
use phantom_os.CString.Compare.{IsText}
use phantom_os.FileSystem.{Ptr, Fs, max_file_size}
use phantom_os.FileSystem.Lookup.{resolve_path}
use phantom_os.FileSystem.Content.{read_file}
use phantom_os.FileSystem.Invariant.Tidy.{text_limit}
use phantom_os.FileSystem.Operations.Files.{IsFiles}
use phantom_os.FileSystem.Operations.Texts.{
  padded, overwrite, HoldsText, Overwritten, write_file-Overwritten,
}
use phantom_os.FileSystem.Paths.Stable.{resolve_path-same}
use phantom_os.Kernel.{Kernel, print}
use phantom_os.Kernel.Ready.{IsReady, report-SameFiles}
use phantom_os.Shell.Files.{write_text}
use phantom_os.Shell.Listing.{string_at, cat_text, cat_node, cmd_cat}

-- The path leads to a file with the text.
pub record ShowsText (s : Fs) (path t : Text) : Type 0 where
  pub target : Ptr
  pub found : resolve_path s path ≡ some (some target)
  pub holds : HoldsText s target t

string_at-text : (t : Text) (rest : Buffer) → IsText t → string_at (t ++ 0 ∷ rest) ≡ some t
unfolding string_at
string_at-text [] rest h = refl
string_at-text (c ∷ t) rest h = ground (arith, string_at-text t rest h.1)

string_at-zeros : (t : Text) (n : ℕ) → IsText t → 0 ≢ n → string_at (t ++ replicate n 0) ≡ some t
unfolding replicate
string_at-zeros t zero plain h = absurd (h refl)
string_at-zeros t (suc n) plain h = string_at-text t (replicate n 0) plain

string_at-padded : (t : Text) → IsText t → length t ≤ text_limit → string_at (padded t) ≡ some t
string_at-padded t plain short =
    string_at-zeros t (max_file_size - length t) plain (omega (arith, short))

cat_node-text :
    (k : Kernel) (p : Ptr) {t : Text} → HoldsText k.fs p t → cat_node p k ≡ print (cat_text t) k
unfolding cat_node read_file
cat_node-text k p {t} h =
    rw (h.file.cell, ◌>>=◌)
      (rw h.file.file (
        rw h.file.buffer
          (rw (h.bytes, ◌>>=◌) (rw (string_at-padded t h.plain h.short, ◌>>=◌) refl))))

-- `cat` of a file with a text prints the text.
pub cmd_cat-text :
    (k : Kernel) (c : ℕ) (path : Text) {t : Text}
    → ShowsText k.fs (c ∷ path) t
    → cmd_cat (c ∷ path) k ≡ print (cat_text t) k
unfolding cmd_cat
cmd_cat-text k c path h =
    rw (h.found, ◌>>=◌)
      (rw (h.holds.file.cell, ◌>>=◌) (rw h.holds.file.file (cat_node-text k h.target h.holds)))

-- What a `write` of the text `u` over the text `t` leaves.
pub record WrittenText (path u t : Text) (k : Kernel) : Type 0 where
  pub ready : IsReady k
  pub shows : ShowsText k.fs path (overwrite u t)

Overwritten-ShowsText :
    {s : Fs} {path u t : Text} {r : ℤ × Fs} (h : ShowsText s path t)
    → IsFiles s
    → Overwritten s h.target h.holds.buffer u t r
    → ShowsText r.1 path (overwrite u t)
Overwritten-ShowsText {path} h ok w = record {
  target = h.target;
  found = resolve_path-same ok.well.tree w.stays.files.well.tree w.same_view path ∙ h.found;
  holds = w.holds;
}

pub write_text-WrittenText :
    {k : Kernel} {path t : Text} (arg1 u : Text)
    → IsReady k
    → (h : ShowsText k.fs path t) → IsText u
    → length u ≤ text_limit
    → Ends (WrittenText path u t) (write_text arg1 u h.target k)
unfolding write_text
write_text-WrittenText {k} {path} {t} arg1 u ready h plain short =
    rw (h.holds.file.cell, ◌>>=◌)
      (rw h.holds.file.file (
        Ends-bind (write_file-Overwritten u (0 ∷ []) ready.files h.holds plain short) (λ r w.
          Ends-map (report-SameFiles _ r ready w.stays.files) (λ k' p. record {
            ready = p.0;
            shows = rw p.1 (Overwritten-ShowsText h ready.files w);
          }))))
