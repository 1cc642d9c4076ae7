-- ===== src/FileSystem/Directory/Add.antt =====
-- `fs_add_child` against the map: it adds one entry, or refuses and changes nothing.
use phantom_os.Prelude.{
  ◌≤◌, ◌<◌, ◌≡◌, refl, ◌≢◌, ap, sym, ◌∙◌, ◌↔◌, ◌⊎◌, inl, inr, Option, none, some, arith, true, leb,
  Bool-cases, ◌>>=◌,
}
use phantom_os.CString.{Buffer, Text, ℤ}
use phantom_os.FileSystem.{Ptr, Node, Fs, is_directory, max_files_per_dir, success, failure}
use phantom_os.FileSystem.Tree.{attach, add_checked, add_child}
use phantom_os.FileSystem.Invariant.{Nodes, IsPlacedDir, IsNode, IsTree}
use phantom_os.FileSystem.Invariant.Find.{Lookup, nothing, child, find_child-Lookup}
use phantom_os.FileSystem.Invariant.Attach.{
  linked, with_child, with_parent, twice_changed, twice_changed-name, IsLinkable, linked_get,
  linked_inv, slot-cases, child_name, attach-IsTree,
}
use phantom_os.FileSystem.Invariant.Update.{slot-lt, modified}
use phantom_os.FileSystem.Directory.{Entry, touch-Entry, Entry-modified}

module _ (g : Nodes) (p c : Ptr) (n m : Node) (l : IsLinkable g p c n m)
    {blocks : Ptr → Option Buffer}
    (nodes : (q : Ptr) (k : Node) → g q ≡ some k → IsNode g blocks q k) where
  -- The slots of the directory after the change.
  dir-children : (k : Node) → (twice_changed p c p k).children ≡ (with_child c k).children
  dir-children k = ground arith

  new-Entry : Entry (linked p c g) p m.name c
  new-Entry = record {
    dir = twice_changed p c p n;
    dir_at = linked_get g p c n m l p n l.cell_p;
    slot = n.child_count;
    holds = ground arith;
    target = twice_changed p c c m;
    target_at = linked_get g p c n m l c m l.cell_c;
    named = twice_changed-name p c c m;
  }

  old-Entry : (name : Text) (d : Ptr) → Entry g p name d → Entry (linked p c g) p name d
  old-Entry name d e = record {
    dir = twice_changed p c p e.dir;
    dir_at = linked_get g p c n m l p e.dir e.dir_at;
    slot = e.slot;
    holds = ground (arith, slot-lt e.slot (nodes p e.dir e.dir_at) e.holds, e.holds);
    target = twice_changed p c d e.target;
    target_at = linked_get g p c n m l d e.target e.target_at;
    named = twice_changed-name p c d e.target ∙ e.named;
  }

  -- Every entry of the directory is an old one or the new one.
  Entry-cases :
      (name : Text) (d : Ptr)
      → Entry (linked p c g) p name d
      → Entry g p name d ⊎ ((name ≡ m.name) × (d ≡ c))
  Entry-cases name d e =
      let (k, k_at, ek) = linked_inv g p c n m l p e.dir e.dir_at in
      let kn : k ≡ n = cc (k_at, l.cell_p) in
      let holds : (with_child c n).children e.slot ≡ some d =
        cc (ek, dir-children k, e.holds, kn) in
      elim (slot-cases g p c n m l (nodes p n l.cell_p) e.slot d holds) [
        | inl (new, same) ↦
            inr (sym e.named ∙ child_name g p c n m l d e.target same e.target_at, same)
        | inr (below, old) ↦
            let (a, a_at, ea) = linked_inv g p c n m l d e.target e.target_at in
            inl (record {
              dir = n;
              dir_at = l.cell_p;
              slot = e.slot;
              holds = old;
              target = a;
              target_at = a_at;
              named =
                  sym (twice_changed-name p c d a) ∙ sym (ap (λ (x : Node). x.name) ea) ∙ e.named;
            })
      ]

-- The three outcomes of `fs_add_child` for the directory `n` at `p` and the orphan `m` at `c`.
pub data Added (s : Fs) (p c : Ptr) (n m : Node) : Option (ℤ × Fs) → Type 0 where
  added :
      IsLinkable s.node p c n m
      → IsTree (attach p c s)
      → ((name : Text) (d : Ptr)
          → Entry (attach p c s).node p name d
            ↔ (Entry s.node p name d ⊎ ((name ≡ m.name) × (d ≡ c))))
      → ((q : Ptr) (name : Text) (d : Ptr)
          → p ≢ q
          → Entry (attach p c s).node q name d ↔ Entry s.node q name d)
      → Added s p c n m (some (success, attach p c s))
  full : max_files_per_dir ≤ n.child_count → Added s p c n m (some (failure, s))
  taken : (d : Ptr) → Entry s.node p m.name d → Added s p c n m (some (failure, s))

attach-Entry :
    {s : Fs} {p c : Ptr} {n m : Node}
    → IsTree s
    → IsLinkable s.node p c n m
    → (name : Text) (d : Ptr)
    → Entry (attach p c s).node p name d ↔ (Entry s.node p name d ⊎ ((name ≡ m.name) × (d ≡ c)))
unfolding attach
attach-Entry {s} {p} {c} {n} {m} tree l name d =
    let time = touch-Entry p (record s { node = linked p c s.node }) p name d in
    (
      (λ e. Entry-cases s.node p c n m l tree.nodes name d (time.0 e)),
      λ e. time.1 (elim e [
        | inl old ↦ old-Entry s.node p c n m l tree.nodes name d old
        | inr (same, is_c) ↦ rw (same, is_c) (new-Entry s.node p c n m l tree.nodes)
      ]),
    )

-- Every other directory keeps its entries.
attach-Entry_other :
    (s : Fs) (p c q : Ptr) (name : Text) (d : Ptr)
    → p ≢ q
    → Entry (attach p c s).node q name d ↔ Entry s.node q name d
unfolding attach
attach-Entry_other s p c q name d ne =
    let first = Entry-modified p (with_child c) s.node q (λ n. refl) (λ n. ground arith) name d in
    let second =
      Entry-modified c (with_parent p) (modified p (with_child c) s.node) q (λ n. refl)
        (λ n. ground arith) name d in
    let time = touch-Entry p (record s { node = linked p c s.node }) q name d in
    ((λ e. first.0 (second.0 (time.0 e))), λ e. time.1 (second.1 (first.1 e)))

-- The outcome from what `fs_find_child` answers.
Added-of :
    {s : Fs} {p c : Ptr} {n m : Node} {r : Option Ptr}
    → IsTree s
    → IsPlacedDir s.node p
    → s.node p ≡ some n
    → s.node c ≡ some m
    → m.parent ≡ none
    → n.child_count < max_files_per_dir
    → Lookup s.node p n m.name r
    → Added s p c n m (elim r [ none ↦ some (success, attach p c s) | some _ ↦ some (failure, s) ])
Added-of {s} {p} {c} {n} {m} tree at cell_p cell_c orphan room (nothing fresh) =
    let dn : at.target ≡ n = cc (cell_p, at.found) in
    let l : IsLinkable s.node p c n m = record {
      cell_p = cell_p;
      cell_c = cell_c;
      dir = rw dn at at.is_dir;
      placed = rw dn at at.placed;
      orphan = orphan;
      room = room;
      fresh = fresh;
    } in
    added l (attach-IsTree tree l) (attach-Entry tree l) (attach-Entry_other s p c)
Added-of tree at cell_p cell_c orphan room (child i d k u holds d_at same back) = taken d (record {
  dir = _;
  dir_at = cell_p;
  slot = i;
  holds = holds;
  target = k;
  target_at = d_at;
  named = same;
})

-- On a directory of a well-formed file system and a node without a parent `fs_add_child` never
-- faults: it adds exactly the entry of the node's name and leaves the
-- other directories alone, or returns -1 and changes nothing because
-- the directory is full or the name is taken.
pub add_child-Added :
    {s : Fs} {p c : Ptr} {n m : Node}
    → IsTree s
    → s.node p ≡ some n
    → is_directory n.type ≡ true
    → n.parent ≢ none
    → s.node c ≡ some m
    → m.parent ≡ none
    → Added s p c n m (add_child (some p) (some c) s)
unfolding add_child add_checked
add_child-Added {s} {p} {c} {n} {m} tree cell_p dir placed cell_c orphan =
    elim (Bool-cases (leb max_files_per_dir n.child_count)) [
      | inl many ↦ rw (cell_p, ◌>>=◌) (rw (dir, many) (full (ground arith)))
      | inr room ↦
          let (r, run, look) = find_child-Lookup s m.name (tree.nodes p n cell_p) cell_p in
          let at : IsPlacedDir s.node p = record {
            target = n;
            found = cell_p;
            is_dir = dir;
            placed = placed;
          } in
          rw (cell_p, ◌>>=◌)
            (rw (dir, room)
              (rw (cell_c, ◌>>=◌)
                (rw (run, ◌>>=◌) (Added-of tree at cell_p cell_c orphan (ground arith) look))))
    ]
