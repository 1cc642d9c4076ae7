-- ===== src/Kernel/Ready/Contents.antt =====
-- The commands of the shell, src/kernel/kernel.c, that remove, copy and write files keep the invariant.
use phantom_os.Prelude.{
  ◌<◌, ◌≡◌, ◌≢◌, refl, arith, Option-cases, inl, inr, ltb, not, ◌||◌, if◌then◌else◌, Option, none,
  some, [], ◌∷◌, ◌++◌, length, length-append, Ends, ends, Ends-bind, Ends-if, ◌>>=◌,
}
use phantom_os.CString.{Text, ℤ}
use phantom_os.FileSystem.{regular, Ptr, Node, Fs, is_directory}
use phantom_os.FileSystem.Tree.{add_child, delete_node}
use phantom_os.FileSystem.Transfer.{is_zero}
use phantom_os.FileSystem.Operations.Files.{
  IsFiles, CreatedFiles, no_node, new_node, create_file-CreatedFiles,
}
use phantom_os.FileSystem.Operations.Adding.{IsAdding, added, add_new-IsAdding}
use phantom_os.FileSystem.Operations.Removal.{remove_child-Leaves, delete_node-Leaves}
use phantom_os.FileSystem.Operations.Contents.{write_file-Stays}
use phantom_os.FileSystem.Operations.Copy.{copy_file-KeepsFiles, move_file-KeepsFiles}
use phantom_os.Kernel.{Kernel, say, print}
use phantom_os.Kernel.Ready.{
  IsReady, print-IsReady, print-SameFiles, with_fs-IsReady, report-IsReady,
}
use phantom_os.Shell.Basic.{is_empty}
use phantom_os.Shell.Files.{
  with_fs, remove_node, cmd_rmdir, cmd_rm, cmd_cp, cmd_mv, write_text, write_new, cmd_write,
}
use phantom_os.Kernel.Ready.Files.{resolved-IsReady}

remove_node-KeepsFiles :
    {s : Fs} {p : Ptr} {n : Node}
    → IsFiles s
    → s.node p ≡ some n
    → n.parent ≢ none
    → Ends IsFiles (remove_node p s)
unfolding remove_node
remove_node-KeepsFiles {s} {p} {n} ok cell placed = elim (Option-cases n.parent) [
  | inl orphan ↦ absurd (placed orphan)
  | inr (q, up) ↦
      rw (cell, ◌>>=◌)
        (Ends-bind (remove_child-Leaves n.name ok cell up) (λ r left.
          Ends-bind
            (delete_node-Leaves left.files
              (left.nodes p n.type (record { node = n; at = cell; typed = refl })))
            (λ r' gone. ends gone.files)))
]

removed-IsReady :
    {k : Kernel} {p : Ptr} {n : Node}
    → IsReady k
    → k.fs.node p ≡ some n
    → n.parent ≢ none
    → Ends IsReady (remove_node p k.fs >>= λ s. some (with_fs s k))
removed-IsReady h cell placed =
    Ends-bind (remove_node-KeepsFiles h.files cell placed) (λ s ok. ends (with_fs-IsReady h ok))

pub cmd_rmdir-IsReady : (arg1 : Text) {k : Kernel} → IsReady k → Ends IsReady (cmd_rmdir arg1 k)
unfolding cmd_rmdir
cmd_rmdir-IsReady arg1 h = Ends-if (is_empty arg1) (print-IsReady _ h) (
    resolved-IsReady arg1 h (print-IsReady _ h) (λ p n at placed.
      rw (at, ◌>>=◌)
        (Ends-if (not (is_directory n.type)) (print-IsReady _ h)
          (Ends-if (ltb 0 n.child_count) (print-IsReady _ h) (removed-IsReady h at placed)))))

pub cmd_rm-IsReady : (arg1 : Text) {k : Kernel} → IsReady k → Ends IsReady (cmd_rm arg1 k)
unfolding cmd_rm
cmd_rm-IsReady arg1 h = Ends-if (is_empty arg1) (print-IsReady _ h) (
    resolved-IsReady arg1 h (print-IsReady _ h) (λ p n at placed.
      rw (at, ◌>>=◌)
        (Ends-if (is_directory n.type) (print-IsReady _ h) (removed-IsReady h at placed))))

pub cmd_cp-IsReady :
    (arg1 arg2 : Text) {k : Kernel}
    → IsReady k
    → length arg2 < 64
    → Ends IsReady (cmd_cp arg1 arg2 k)
unfolding cmd_cp
cmd_cp-IsReady arg1 arg2 h short =
    Ends-if (is_empty arg1 || is_empty arg2) (print-IsReady _ h)
      (Ends-bind (copy_file-KeepsFiles arg1 arg2 h.files short) (λ r ok. report-IsReady _ r h ok))

pub cmd_mv-IsReady :
    (arg1 arg2 : Text) {k : Kernel}
    → IsReady k
    → length arg2 < 64
    → Ends IsReady (cmd_mv arg1 arg2 k)
unfolding cmd_mv
cmd_mv-IsReady arg1 arg2 h short =
    Ends-if (is_empty arg1 || is_empty arg2) (print-IsReady _ h)
      (Ends-bind (move_file-KeepsFiles arg1 arg2 h.files short) (λ r ok. report-IsReady _ r h ok))

write_text-IsReady :
    (arg1 arg2 : Text) {k : Kernel} {p : Ptr} {n : Node}
    → IsReady k
    → k.fs.node p ≡ some n
    → length arg2 < 64
    → Ends IsReady (write_text arg1 arg2 p k)
unfolding write_text
write_text-IsReady arg1 arg2 {n = n} h at short =
    rw (at, ◌>>=◌)
      (Ends-if (is_directory n.type) (print-IsReady _ h) (
        Ends-bind
          (write_file-Stays (arg2 ++ 0 ∷ []) (length arg2) h.files at
            (omega (arith, length-append arg2 (0 ∷ []))) (omega (arith, short)))
          (λ r st. report-IsReady _ r h st.files)))

write_new-IsReady :
    (arg1 arg2 : Text) {k : Kernel}
    → IsReady k
    → length arg2 < 64
    → Ends IsReady (write_new arg1 arg2 k)
unfolding write_new
write_new-IsReady arg1 arg2 {k} h short = from (create_file-CreatedFiles arg1 regular h.files)
  where
    placed :
        {q : Ptr} {r : Option (ℤ × Fs)}
        → IsAdding k.fs q r
        → Ends IsReady (
            r >>= λ r.
            if is_zero r.0
            then write_text arg1 arg2 q (with_fs r.1 k)
            else (print (say "write: cannot create file\n" ∷ []) (with_fs r.1 k) >>= λ k1.
                delete_node (some q) k1.fs >>= λ r'. some (with_fs r'.1 k1)))
    placed (added r n ok at) =
        Ends-if (is_zero r.0) (write_text-IsReady arg1 arg2 (with_fs-IsReady h ok) at short) (
          Ends-bind (print-SameFiles _ (with_fs-IsReady h ok)) (λ k1 p.
            Ends-bind
              (delete_node-Leaves p.0.files (record { node = n; at = rw p.1 at; typed = refl }))
              (λ r' gone. ends (with_fs-IsReady p.0 gone.files))))

    from :
        {r : Option Ptr × Fs}
        → CreatedFiles k.fs arg1 regular r
        → Ends IsReady (elim r.0 [
          | none ↦ some (with_fs r.1 k)
          | some q ↦
              (add_child k.fs.current_dir (some q) r.1 >>= λ r.
              if is_zero r.0
              then write_text arg1 arg2 q (with_fs r.1 k)
              else (print (say "write: cannot create file\n" ∷ []) (with_fs r.1 k) >>= λ k1.
                  delete_node (some q) k1.fs >>= λ r'. some (with_fs r'.1 k1)))
        ])
    from no_node = ends (with_fs-IsReady h h.files)
    from (new_node q s' new) = placed (add_new-IsAdding h.files new)

pub cmd_write-IsReady :
    (arg1 arg2 : Text) {k : Kernel}
    → IsReady k
    → length arg2 < 64
    → Ends IsReady (cmd_write arg1 arg2 k)
unfolding cmd_write
cmd_write-IsReady arg1 arg2 h short = Ends-if (is_empty arg1) (print-IsReady _ h) (
    Ends-if (is_empty arg2) (print-IsReady _ h) (
      resolved-IsReady arg1 h (write_new-IsReady arg1 arg2 h short)
        (λ p n at placed. write_text-IsReady arg1 arg2 h at short)))
