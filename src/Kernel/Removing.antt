-- ===== src/Kernel/Removing.antt =====
-- `rm` of src/kernel/kernel.c on a file.
use phantom_os.Prelude.{
  ℕ, ◌≡◌, ◌≢◌, ◌↔◌, refl, sym, ◌∙◌, arith, false, Option, some, ◌∷◌, ◌>>=◌, Option-cases, inl, inr,
  Ends, ends, Ends-bind, Ends-value, end_value, at_value,
}
use phantom_os.CString.{Text, ℤ}
use phantom_os.FileSystem.{Ptr, Node, Fs, success, is_directory}
use phantom_os.FileSystem.Alloc.{get_current_time}
use phantom_os.FileSystem.Lookup.{resolve_path}
use phantom_os.FileSystem.Tree.{touch, unlink, remove_child}
use phantom_os.FileSystem.Invariant.Create.{IsWellFormed}
use phantom_os.FileSystem.Directory.{Entry}
use phantom_os.FileSystem.Directory.Remove.{Removed, removed, missing, remove_child-Removed}
use phantom_os.FileSystem.Operations.Copied.{found_parent}
use phantom_os.FileSystem.Operations.Delete.{
  counted, OwnEntry, Without, Without-Removed, Deleted, is_root, not_empty, deleted,
  delete_node-Deleted,
}
use phantom_os.FileSystem.Operations.Moved.{file_not_root}
use phantom_os.Kernel.{Kernel}
use phantom_os.Kernel.Ready.{IsReady}
use phantom_os.Kernel.Ready.Contents.{cmd_rm-IsReady}
use phantom_os.Shell.Files.{with_fs, remove_node, cmd_rm}

unlink-other : (q : Ptr) (i : ℕ) (s : Fs) (p : Ptr) → q ≢ p → (unlink q i s).node p ≡ s.node p
unfolding unlink touch get_current_time
unlink-other q i s p ne = ground arith

-- The entries without the one of the node `n` in its parent.
abbrev pub OnlyLost : Node → Fs → Fs → Type 0
OnlyLost n s s' =
    (d : Ptr) (name : Text) (c : Ptr)
    → Entry s'.node d name c ↔ (Entry s.node d name c × (¬ OwnEntry n d name))

-- The first call of `rm`: the node itself stays as it is.
record FirstRemoved (s : Fs) (p : Ptr) (n : Node) (r : ℤ × Fs) : Type 0 where
  without : Without n s r.1
  kept : r.1.node p ≡ some n

remove_child-FirstRemoved :
    {s : Fs} {p q : Ptr} {n : Node} {r : Option (ℤ × Fs)}
    → IsWellFormed s
    → s.node p ≡ some n
    → n.parent ≡ some q
    → q ≢ p
    → Removed s q n.name r
    → Ends (FirstRemoved s p n) r
remove_child-FirstRemoved {s} {p} {q} {n} ok at up ne (removed i c e tree map other) =
    let (s1, run, w) = Without-Removed {n = n} ok up (removed i c e tree map other) in
    let same : s1 ≡ unlink q i s = cc (run) in
    ends (record { without = rw same at w; kept = unlink-other q i s p ne ∙ at })
remove_child-FirstRemoved {s} {n = n} ok at up ne (missing none_there) =
    let (s1, run, w) = Without-Removed {n = n} ok up (missing none_there) in
    let same : s1 ≡ s = cc (run) in ends (record { without = rw same at w; kept = at })

-- The second call: the entry is gone already.
delete_node-OnlyLost :
    {s s1 : Fs} {p : Ptr} {n : Node} {r : Option (ℤ × Fs)}
    → s1.root ≢ some p
    → is_directory n.type ≡ false
    → Without n s s1
    → Deleted s1 p n r
    → Ends (λ r. OnlyLost n s r.1) r
delete_node-OnlyLost no_root file w (is_root e) = absurd (no_root e)
delete_node-OnlyLost no_root file w (not_empty dir more) = absurd (cc (dir, file))
delete_node-OnlyLost no_root file w (deleted s' ne empty w' ok) =
    ends {a = (success, counted _ s')} (λ d name c. (
      (λ e. (w.entries d name c).0 ((w'.entries d name c).0 e).0),
      λ x. (w'.entries d name c).1 ((w.entries d name c).1 x, x.1),
    ))

-- Both calls.
remove_node-OnlyLost :
    {s : Fs} {p q : Ptr} {n : Node}
    → IsWellFormed s
    → s.node p ≡ some n
    → is_directory n.type ≡ false
    → n.parent ≡ some q
    → Ends (OnlyLost n s) (remove_node p s)
unfolding remove_node
remove_node-OnlyLost {s} {p} {q} {n} ok at file up =
    let dir = (ok.tree.nodes p n at).above q up in
    let apart : q ≢ p = λ same.
      let is : dir.target ≡ n = cc (dir.found, at, same) in absurd (cc (dir.is_dir, file, is)) in
    let no_root = file_not_root ok.tree at file in
    rw (at, ◌>>=◌)
      (Ends-bind
        (at_parent n.parent up (
          remove_child-FirstRemoved ok at up apart
            (remove_child-Removed n.name ok.tree dir.found dir.is_dir)))
        (λ r f.
          Ends-bind
            (delete_node-OnlyLost (λ e. no_root (sym f.without.same_root ∙ e)) file f.without
              (delete_node-Deleted f.without.ok f.kept))
            (λ r' lost. ends lost)))
  where
    at_parent :
        (parent : Option Ptr)
        → parent ≡ some q
        → Ends (FirstRemoved s p n) (remove_child (some q) n.name s)
        → Ends (FirstRemoved s p n) (remove_child parent n.name s)
    at_parent parent e h = rw e h

cmd_rm-remove_node :
    (k : Kernel) (c : ℕ) (path : Text) {p : Ptr} {n : Node}
    → resolve_path k.fs (c ∷ path) ≡ some (some p)
    → k.fs.node p ≡ some n
    → is_directory n.type ≡ false
    → cmd_rm (c ∷ path) k ≡ (remove_node p k.fs >>= λ s. some (with_fs s k))
unfolding cmd_rm
cmd_rm-remove_node k c path found at file = rw (found, ◌>>=◌) (rw (at, ◌>>=◌) (rw file refl))

-- In a well-formed state, `rm` of a path to a file ends without a fault in a well-formed state, in
-- which every directory has the entries that it had, but for the one of the file in its parent.
pub cmd_rm-OnlyLost :
    (k : Kernel) (c : ℕ) (path : Text) (p : Ptr) (n : Node)
    → IsReady k
    → resolve_path k.fs (c ∷ path) ≡ some (some p)
    → k.fs.node p ≡ some n
    → is_directory n.type ≡ false
    → Ends (λ k'. IsReady k' × OnlyLost n k.fs k'.fs) (cmd_rm (c ∷ path) k)
cmd_rm-OnlyLost k c path p n h found at file = elim (Option-cases n.parent) [
  | inl orphan ↦ absurd (found_parent (c ∷ path) n h.files found at orphan)
  | inr (q, up) ↦
      let run = cmd_rm-remove_node k c path found at file in
      let (s', done, lost) = end_value (remove_node-OnlyLost h.files.well at file up) in
      let value : cmd_rm (c ∷ path) k ≡ some (with_fs s' k) = run ∙ rw done refl in
      Ends-value value (at_value value (cmd_rm-IsReady (c ∷ path) h), lost)
]
