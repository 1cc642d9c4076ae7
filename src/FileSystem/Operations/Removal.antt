-- ===== src/FileSystem/Operations/Removal.antt =====
-- `fs_remove_child` and `fs_delete_node` of src/kernel/filesystem.c keep the invariant.
use phantom_os.Prelude.{
  ℕ, ◌≡◌, refl, Option, some, ◌&&◌, ltb, Bool-cases, Option-cases, inl, inr, ◌>>=◌, Ends, ends,
  Ends-bind,
}
use phantom_os.CString.{Text, ℤ}
use phantom_os.FileSystem.{FileType, Ptr, Node, Fs, is_directory, same_ptr}
use phantom_os.FileSystem.Tree.{unlink, remove_child, detach, delete_node}
use phantom_os.FileSystem.Invariant.Tidy.{unlink-IsTidy}
use phantom_os.FileSystem.Directory.Remove.{Removed, removed, missing, remove_child-Removed}
use phantom_os.FileSystem.Operations.Steps.{unlink-HasPool}
use phantom_os.FileSystem.Operations.Files.{IsFiles, HasNode, modify-HasNode, touch-HasNode}

-- The state after a call that only removes entries: every node is still there.
pub record Remains (s s' : Fs) : Type 0 where
  pub files : IsFiles s'
  pub nodes : (q : Ptr) (type : FileType) → HasNode s q type → HasNode s' q type

-- The same of a code and a state.
abbrev pub Leaves : Fs → ℤ × Fs → Type 0
Leaves s r = Remains s r.1

Remains-refl : {s : Fs} → IsFiles s → Remains s s
Remains-refl ok = record { files = ok; nodes = λ q type h. h }

unlink-HasNode :
    (p : Ptr) (i : ℕ) {s : Fs} {q : Ptr} {type : FileType}
    → HasNode s q type
    → HasNode (unlink p i s) q type
unfolding unlink
unlink-HasNode p i h = touch-HasNode p (modify-HasNode p _ (λ n. refl) h)

Removed-Leaves :
    {s : Fs} {p : Ptr} {name : Text} {r : Option (ℤ × Fs)}
    → IsFiles s
    → Removed s p name r
    → Ends (Leaves s) r
Removed-Leaves {s} {p} ok (removed i c e tree map other) = ends (record {
  files = record {
    well = record { tree = tree; pool = unlink-HasPool p i s ok.well.pool };
    tidy = unlink-IsTidy p i ok.tidy;
  };
  nodes = λ q type h. unlink-HasNode p i h;
})
Removed-Leaves ok (missing none_there) = ends (Remains-refl ok)

-- From the parent of a node a name is removed without a fault.
pub remove_child-Leaves :
    {s : Fs} {p q : Ptr} {n : Node} (name : Text)
    → IsFiles s
    → s.node p ≡ some n
    → n.parent ≡ some q
    → Ends (Leaves s) (remove_child n.parent name s)
remove_child-Leaves {s} {p} {q} {n} name ok cell up =
    let dir = (ok.well.tree.nodes p n cell).above q up in
    rw up (Removed-Leaves ok (remove_child-Removed name ok.well.tree dir.found dir.is_dir))

detach-Remains :
    {s : Fs} {p : Ptr} {n : Node}
    → IsFiles s
    → s.node p ≡ some n
    → Ends (Remains s) (detach n.parent n.name s)
unfolding detach
detach-Remains {s} {p} {n} ok cell = elim (Option-cases n.parent) [
  | inl orphan ↦ rw orphan (ends (Remains-refl ok))
  | inr (q, up) ↦
      let out = remove_child-Leaves n.name ok cell up in
      rw up (Ends-bind (rw up at out) (λ r h. ends h))
]

counted-IsFiles : (k : ℕ) {s : Fs} → IsFiles s → IsFiles (record s { total_files = k })
counted-IsFiles k ok = record {
  well = record {
    tree = record {
      nodes = ok.well.tree.nodes;
      root_dir = ok.well.tree.root_dir;
      current = ok.well.tree.current;
    };
    pool = ok.well.pool;
  };
  tidy = record { nodes = ok.tidy.nodes; tails = ok.tidy.tails };
}

-- `fs_delete_node` of any node ends without a fault.
pub delete_node-Leaves :
    {s : Fs} {p : Ptr} {type : FileType}
    → IsFiles s
    → HasNode s p type
    → Ends (Leaves s) (delete_node (some p) s)
unfolding delete_node
delete_node-Leaves {s} {p} ok h0 =
    let n = h0.node in
    let cell = h0.at in
    elim (Bool-cases (same_ptr (some p) s.root)) [
      | inl root ↦ rw root (ends (Remains-refl ok))
      | inr other ↦ rw other (
          rw (cell, ◌>>=◌)
            (elim (Bool-cases (is_directory n.type && ltb 0 n.child_count)) [
              | inl busy ↦ rw busy (ends (Remains-refl ok))
              | inr free ↦ rw free (
                  Ends-bind (detach-Remains ok cell) (λ s' h. ends (record {
                    files = counted-IsFiles _ h.files;
                    nodes = λ q type k.
                        let m = h.nodes q type k in
                        record { node = m.node; at = m.at; typed = m.typed };
                  })))
            ]))
    ]
