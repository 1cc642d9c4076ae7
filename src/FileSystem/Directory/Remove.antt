-- ===== src/FileSystem/Directory/Remove.antt =====
-- `fs_remove_child` against the map: it removes one entry, or finds none and changes nothing.
use phantom_os.Prelude.{
  ℕ, ◌-◌, ◌<◌, ◌≡◌, refl, ◌≢◌, ap, sym, ◌∙◌, ◌↔◌, Option, none, some, arith, true, if◌then◌else◌,
  ltb, ◌>>=◌,
}
use Prim.Native.Nat.{zero-le}
use phantom_os.CString.{Buffer, Text, ℤ}
use phantom_os.FileSystem.{Ptr, Node, Fs, is_directory, success, failure}
use phantom_os.FileSystem.Tree.{unlink, remove_child}
use phantom_os.FileSystem.Invariant.{Nodes, IsNode, IsTree}
use phantom_os.FileSystem.Invariant.Find.{
  Found, absent, present, NoDangling-IsNode, find_slot-Found,
}
use phantom_os.FileSystem.Invariant.Update.{changed, modified_get, modified_inv, slot-lt}
use phantom_os.FileSystem.Invariant.Unlink.{
  unlinked, without_slot, without_slot-children, old_slot, unlink-IsTree,
}
use phantom_os.FileSystem.Directory.{Entry, touch-Entry, Entry-modified}

-- The slot that an old slot other than `i` has after the removal.
abbrev new_slot : ℕ → ℕ → ℕ
new_slot i x = if ltb x i then x else x - 1

module _ (g : Nodes) {blocks : Ptr → Option Buffer} (p : Ptr) (n : Node) (i : ℕ)
    (cell : g p ≡ some n) (below : i < n.child_count)
    (nodes : (q : Ptr) (k : Node) → g q ≡ some k → IsNode g blocks q k) where
  same-name : (c : Ptr) (k : Node) → (changed p (without_slot i) c k).name ≡ k.name
  same-name c k = ground arith

  dir-children :
      (k : Node) → (changed p (without_slot i) p k).children ≡ (without_slot i k).children
  dir-children k = ground arith

  -- What is left was there before, in another slot than `i`.
  Entry-before :
      (name : Text) (c : Ptr)
      → Entry (unlinked p i g) p name c
      → (e : Entry g p name c) × (e.slot ≢ i)
  Entry-before name c e =
      let (k, k_at, ek) = modified_inv p (without_slot i) g e.dir_at in
      let (a, a_at, ea) = modified_inv p (without_slot i) g e.target_at in
      let kn : k ≡ n = cc (k_at, cell) in
      let holds : (without_slot i n).children e.slot ≡ some c =
        cc (ek, dir-children k, e.holds, kn) in
      (
        record {
          dir = n;
          dir_at = cell;
          slot = old_slot i e.slot;
          holds = sym (without_slot-children i (nodes p n cell) below e.slot) ∙ holds;
          target = a;
          target_at = a_at;
          named = sym (same-name c a) ∙ sym (ap (λ (x : Node). x.name) ea) ∙ e.named;
        },
        ground arith,
      )

  -- What was in another slot stays.
  Entry-after :
      (name : Text) (c : Ptr)
      → (e : Entry g p name c) → e.slot ≢ i
      → Entry (unlinked p i g) p name c
  Entry-after name c e other =
      let dn : e.dir ≡ n = cc (cell, e.dir_at) in
      let back : old_slot i (new_slot i e.slot) ≡ e.slot = ground arith in
      record {
        dir = changed p (without_slot i) p e.dir;
        dir_at = modified_get p (without_slot i) g e.dir_at;
        slot = new_slot i e.slot;
        holds = cc (
          dir-children e.dir,
          dn,
          without_slot-children i (nodes p n cell) below (new_slot i e.slot),
          back,
          e.holds,
        );
        target = changed p (without_slot i) c e.target;
        target_at = modified_get p (without_slot i) g e.target_at;
        named = same-name c e.target ∙ e.named;
      }

  module _ (name : Text) (c : Ptr) (m : Node) (holds : n.children i ≡ some c) (at : g c ≡ some m)
      (named : m.name ≡ name) where
    -- The entries that are left are those of other names.
    unlinked-Entry :
        (other : Text) (d : Ptr)
        → Entry (unlinked p i g) p other d ↔ (Entry g p other d × (other ≢ name))
    unlinked-Entry other d = (
      (λ e.
          let (old, ne) = Entry-before other d e in
          let dn : old.dir ≡ n = cc (cell, old.dir_at) in
          let old_holds : n.children old.slot ≡ some d = cc (dn, old.holds) in
          (
            old,
            λ same. ne (
                (nodes p n cell).distinct old.slot i d c old.target m old_holds holds old.target_at
                  at (old.named ∙ same ∙ sym named)),
          )),
      (λ (e, ne).
          let dn : e.dir ≡ n = cc (cell, e.dir_at) in
          let e_holds : n.children e.slot ≡ some d = cc (dn, e.holds) in
          Entry-after other d e
            (λ at_i. ne (cc (at_i, e_holds, holds, at, e.target_at, e.named, named)))),
    )

-- The outcomes of `fs_remove_child` for a name in the directory `n` at `p`.
pub data Removed (s : Fs) (p : Ptr) (name : Text) : Option (ℤ × Fs) → Type 0 where
  removed :
      (i : ℕ) (c : Ptr)
      → Entry s.node p name c
      → IsTree (unlink p i s)
      → ((other : Text) (d : Ptr)
          → Entry (unlink p i s).node p other d ↔ (Entry s.node p other d × (other ≢ name)))
      → ((q : Ptr) (other : Text) (d : Ptr)
          → p ≢ q
          → Entry (unlink p i s).node q other d ↔ Entry s.node q other d)
      → Removed s p name (some (success, unlink p i s))
  missing : ((c : Ptr) → ¬ Entry s.node p name c) → Removed s p name (some (failure, s))

unlink-Entry :
    {s : Fs} {p : Ptr} {n : Node} (i : ℕ) {name : Text} {c : Ptr} {m : Node}
    → IsTree s
    → s.node p ≡ some n
    → i < n.child_count
    → n.children i ≡ some c
    → s.node c ≡ some m
    → m.name ≡ name
    → (other : Text) (d : Ptr)
    → Entry (unlink p i s).node p other d ↔ (Entry s.node p other d × (other ≢ name))
unfolding unlink
unlink-Entry {s} {p} {n} i {name} {c} {m} tree cell below holds at named other d =
    let time = touch-Entry p (record s { node = unlinked p i s.node }) p other d in
    let change =
      unlinked-Entry s.node p n i cell below tree.nodes name c m holds at named other d in
    ((λ e. change.0 (time.0 e)), λ e. time.1 (change.1 e))

-- Every other directory keeps its entries.
unlink-Entry_other :
    (s : Fs) (p : Ptr) (i : ℕ) (q : Ptr) (name : Text) (d : Ptr)
    → p ≢ q
    → Entry (unlink p i s).node q name d ↔ Entry s.node q name d
unfolding unlink
unlink-Entry_other s p i q name d ne =
    let change =
      Entry-modified p (without_slot i) s.node q (λ n. refl) (λ n. ground arith) name d in
    let time = touch-Entry p (record s { node = unlinked p i s.node }) q name d in
    ((λ e. change.0 (time.0 e)), λ e. time.1 (change.1 e))

-- The outcome from what the search answers.
Removed-of :
    {s : Fs} {p : Ptr} {n : Node} {name : Text} {r : Option ℕ}
    → IsTree s
    → s.node p ≡ some n
    → Found s.node n.children name 0 n.child_count r
    → Removed s p name (elim r [ none ↦ some (failure, s) | some i ↦ some (success, unlink p i s) ])
Removed-of {n} tree cell (absent h) = missing λ c e.
    let dn : e.dir ≡ n = cc (cell, e.dir_at) in
    let holds : n.children e.slot ≡ some c = cc (dn, e.holds) in
    h e.slot c e.target zero-le (slot-lt e.slot (tree.nodes _ n cell) holds) holds e.target_at
      e.named
Removed-of {n} tree cell (present i l u (c, m, full, at, same) h) =
    removed i c
      (record {
        dir = n;
        dir_at = cell;
        slot = i;
        holds = full;
        target = m;
        target_at = at;
        named = same;
      })
      (unlink-IsTree i tree cell u) (unlink-Entry i tree cell u full at same)
      (unlink-Entry_other _ _ i)

-- On a directory of a well-formed file system `fs_remove_child` never faults: it removes exactly the
-- entry of the name and leaves the other directories alone, or returns -1 and changes nothing because there is none.
pub remove_child-Removed :
    {s : Fs} {p : Ptr} {n : Node} (name : Text)
    → IsTree s
    → s.node p ≡ some n
    → is_directory n.type ≡ true
    → Removed s p name (remove_child (some p) name s)
unfolding remove_child
remove_child-Removed {s} {p} {n} name tree cell dir =
    let (r, run, found) =
      find_slot-Found s n.children name n.child_count 0 n.child_count
        (NoDangling-IsNode (tree.nodes p n cell)) (omega arith) in
    rw (cell, ◌>>=◌) (rw dir (rw (run, ◌>>=◌) (Removed-of tree cell found)))
