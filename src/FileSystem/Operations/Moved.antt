-- ===== src/FileSystem/Operations/Moved.antt =====
-- `fs_move_file` of src/kernel/filesystem.c where it succeeds.
use phantom_os.Prelude.{
  ℕ, ◌≤◌, ◌≡◌, ◌≢◌, refl, ap, sym, ◌∙◌, Option, none, some, false, ◌&&◌, ltb, Bool-cases, inl, inr,
  ◌>>=◌, length, take, Ends, ends, Ends-bind, end_value,
}
use phantom_os.CString.{Text, ℤ}
use phantom_os.FileSystem.{Ptr, Node, Fs, is_directory, same_ptr, success}
use phantom_os.FileSystem.Lookup.{find_child, resolve_path}
use phantom_os.FileSystem.Tree.{unlink, detach, delete_node}
use phantom_os.FileSystem.Paths.{get_parent_path, get_filename}
use phantom_os.FileSystem.Transfer.{copy_file, move_file}
use phantom_os.FileSystem.Invariant.{IsTree}
use phantom_os.FileSystem.Directory.{Entry, find_child-Entry}
use phantom_os.FileSystem.Directory.Remove.{Removed, removed, missing, remove_child-Removed}
use phantom_os.FileSystem.Operations.Files.{IsFiles}
use phantom_os.FileSystem.Operations.Texts.{HoldsText}
use phantom_os.FileSystem.Operations.Making.{IsPlainName, HasSpace, resolve_path-name}
use phantom_os.FileSystem.Operations.Placing.{HasPlace, NewFile, modify-HoldsText, touch-HoldsText}
use phantom_os.FileSystem.Operations.Copied.{IsSource, copy_file-CopiedFile}
use phantom_os.FileSystem.Operations.Delete.{
  counted, Deleted, is_root, not_empty, deleted, delete_node-Deleted,
}

-- A file is not the root.
pub file_not_root :
    {s : Fs} {p : Ptr} {n : Node}
    → IsTree s
    → s.node p ≡ some n
    → is_directory n.type ≡ false
    → s.root ≢ some p
file_not_root {n = n} tree at file e =
    let (r, root, d) = tree.root_dir in
    let is : d.target ≡ n = cc (d.found, at, root, e) in absurd (cc (d.is_dir, file, is))

unlink-HoldsText :
    (p : Ptr) (i : ℕ) {s : Fs} {q : Ptr} {t : Text} → HoldsText s q t → HoldsText (unlink p i s) q t
unfolding unlink
unlink-HoldsText p i h = touch-HoldsText p (modify-HoldsText p _ (λ n. (refl, refl)) h)

Removed-HoldsText :
    {s : Fs} {p q : Ptr} {name t : Text} {r : Option (ℤ × Fs)}
    → HoldsText s q t
    → Removed s p name r
    → Ends (λ r. HoldsText r.1 q t) r
Removed-HoldsText {p = p} h (removed i c e tree map other) = ends (unlink-HoldsText p i h)
Removed-HoldsText h (missing none_there) = ends h

detach-HoldsText :
    {s : Fs} {p q : Ptr} {n : Node} {t : Text}
    → IsTree s
    → s.node p ≡ some n
    → HoldsText s q t
    → Ends (λ s'. HoldsText s' q t) (detach n.parent n.name s)
unfolding detach
detach-HoldsText {s} {p} {q} {n} {t} tree cell h = at_parent n.parent refl
  where
    at_parent : (o : Option Ptr) → n.parent ≡ o → Ends (λ s'. HoldsText s' q t) (detach o n.name s)
    at_parent none e = ends h
    at_parent (some d) e =
        let dir = (tree.nodes p n cell).above d e in
        Ends-bind (Removed-HoldsText h (remove_child-Removed n.name tree dir.found dir.is_dir))
          (λ r k. ends k)

-- The deletion of a node changes no text.
delete_node-HoldsText :
    {s : Fs} {p q : Ptr} {n : Node} {t : Text}
    → IsTree s
    → s.node p ≡ some n
    → HoldsText s q t
    → Ends (λ r. HoldsText r.1 q t) (delete_node (some p) s)
unfolding delete_node
delete_node-HoldsText {s} {p} {q} {n} tree cell h = elim (Bool-cases (same_ptr (some p) s.root)) [
  | inl root ↦ rw root (ends h)
  | inr other ↦ rw other (
      rw (cell, ◌>>=◌)
        (elim (Bool-cases (is_directory n.type && ltb 0 n.child_count)) [
          | inl busy ↦ rw busy (ends h)
          | inr free ↦ rw free (
              Ends-bind (detach-HoldsText tree cell h) (λ s' k. ends (record {
                node = k.node;
                buffer = k.buffer;
                file = record { cell = k.file.cell; file = k.file.file; buffer = k.file.buffer };
                bytes = k.bytes;
                plain = k.plain;
                short = k.short;
              })))
        ]))
]

-- After a move of the file with the name `v` in the directory at `c`: the new file at `q` has the name
-- `w` in the directory at `d` and the text `u`, the old name is gone, and the other entries stay.
pub record MovedFile (s : Fs) (c : Ptr) (v : Text) (d q : Ptr) (w u : Text) (s' : Fs) : Type 0 where
  pub entry : Entry s'.node d w q
  pub holds : HoldsText s' q u
  pub gone : (e : Ptr) → ¬ Entry s'.node c v e
  pub others :
      (x : Ptr) (y : Text) (e : Ptr)
      → ¬ ((c ≡ x) × (y ≡ v))
      → Entry s.node x y e
      → Entry s'.node x y e

-- The node of an entry has its name, and the directory as its parent.
Entry-parent :
    {s : Fs} {c p : Ptr} {v : Text} {n : Node}
    → IsTree s
    → Entry s.node c v p
    → s.node p ≡ some n
    → (n.parent ≡ some c) × (n.name ≡ v)
Entry-parent {s} {c} {p} {v} {n} tree e at =
    let k = (tree.nodes c e.dir e.dir_at).child e.slot p e.holds in
    let is : k.target ≡ n = cc (k.found, at) in
    let same : e.target ≡ n = cc (e.target_at, at) in (rw is at k.back, rw same at e.named)

Deleted-MovedFile :
    {s s1 : Fs} {c p d q : Ptr} {v w u : Text} {n : Node} {r : Option (ℤ × Fs)}
    → ((e : Ptr) → ¬ Entry s.node d w e)
    → Entry s.node c v p
    → (n.parent ≡ some c) × (n.name ≡ v)
    → s1.root ≢ some p
    → is_directory n.type ≡ false
    → NewFile s d q w u s1
    → Ends (λ r. HoldsText r.1 q u) r
    → Deleted s1 p n r
    → Ends (λ r. MovedFile s c v d q w u r.1) r
Deleted-MovedFile free old own no_root file new text (is_root e) = absurd (no_root e)
Deleted-MovedFile free old own no_root file new text (not_empty dir more) = absurd (cc (dir, file))
Deleted-MovedFile {s} {s1} {c} {p} {d} {q} {v} {w} {u} {n} free old own no_root file new (ends text)
      (deleted s' ne empty left ok) =
    ends {a = (success, counted _ s')} (record {
      entry = (left.entries d w q).1 (
        new.entry,
        λ lost.
            let same_dir : c ≡ d = cc (own.0, lost.0) in
            let same_name : w ≡ v = lost.1 ∙ own.1 in free p (rw (same_name, ← same_dir) old),
      );
      holds = text;
      gone = λ e h. ((left.entries c v e).0 h).1 (own.0, sym own.1);
      others = λ x y e ne h.
          (left.entries x y e).1
            (new.others x y e h, λ lost. ne (cc (own.0, lost.0), lost.1 ∙ own.1));
    })

move_file-delete_node :
    (s : Fs) (src dest : Text) {s1 : Fs} {p : Ptr} {r : ℤ × Fs}
    → copy_file src dest s ≡ some (success, s1)
    → resolve_path s1 src ≡ some (some p)
    → delete_node (some p) s1 ≡ some r
    → move_file src dest s ≡ some (success, r.1)
unfolding move_file
move_file-delete_node s src dest copy found gone =
    rw (copy, ◌>>=◌) (rw (found, ◌>>=◌) (rw (gone, ◌>>=◌) refl))

-- In a well-formed file system with room for a file, the move of a file of the current directory that
-- holds a text, whose size is the length of the text at most, to a new name of at most 62 characters
-- in a directory with a free slot succeeds: the new name leads to a file that holds as much of the
-- text as the size says, the old name is gone, and every other entry of a directory stays.
pub move_file-MovedFile :
    {s : Fs} {c p d : Ptr} {t : Text} (v dest dir_path w : Text)
    → IsFiles s
    → HasSpace s
    → s.current_dir ≡ some c
    → IsPlainName v
    → Entry s.node c v p
    → (h : IsSource s p t) → get_parent_path dest ≡ some dir_path
    → get_filename dest ≡ some w
    → resolve_path s dir_path ≡ some (some d)
    → HasPlace s d w
    → length w ≤ 62
    → (s' : Fs) × (move_file v dest s ≡ some (success, s'))
      × MovedFile s c v d s.memory_offset w (take h.holds.node.size t) s'
move_file-MovedFile {s} {c} {p} v dest dir_path w ok space here plain old h up base found place
      short =
    let (s1, copy, copied) =
      copy_file-CopiedFile v dest dir_path w ok space (name_found s here ok.well.tree old) h up base
        found place short in
    let new = copied.new in
    let tree = new.files.well.tree in
    let n = copied.source.node in
    let cell = copied.source.file.cell in
    let entry = new.others c v p old in
    let (r, run, moved) = end_value (
      Deleted-MovedFile ((find_child-Entry s w ok.well.tree place.at).1.0 place.free) old
        (Entry-parent tree entry cell) (file_not_root tree cell copied.source.file.file)
        copied.source.file.file new (delete_node-HoldsText tree cell new.holds)
        (delete_node-Deleted new.files.well cell)) in
    (
      r.1,
      move_file-delete_node s v dest copy (name_found s1 (new.same_dir ∙ here) tree entry) run,
      moved,
    )
  where
    name_found :
        (z : Fs)
        → z.current_dir ≡ some c
        → IsTree z
        → Entry z.node c v p
        → resolve_path z v ≡ some (some p)
    name_found z at tree e = resolve_path-name z v (some p) plain (
        ap (λ (x : Option Ptr). find_child z x v) at
        ∙ ((find_child-Entry z v tree e.dir_at).0 p).1 e)
